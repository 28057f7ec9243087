-- ===== src/Clients/Store.antt =====
-- `struct client` is its descriptor and the `buf_used` bytes of its buffer; the links are the
-- list's order. Beside the new state a function returns the descriptors that it closed.
use dtmd.Common.{ℕ, ◌+◌, ◌-◌, Bool, true, false, List, [], ◌∷◌, ◌++◌, ◌==◌, if◌then◌else◌, Bytes}
use dtmd.Misc.Types.{ReturnCode, success, fail, fatal_error}

pub record Client : Type 0 where
  pub clientfd : ℕ
  pub buf : Bytes

pub record Clients : Type 0 where
  pub list : List Client
  pub count : ℕ

pub record Served : Type 0 where
  pub rc : ReturnCode
  pub clients : Clients
  pub closed : List ℕ

-- The search of the loops, by descriptor.
unfoldable pub has_client : ℕ → List Client → Bool
has_client fd [] = false
has_client fd (c ∷ cs) = let rest = has_client fd cs in if c.clientfd == fd then true else rest

-- `add_client`; `memory` is the answer of `malloc`.
unfoldable pub add_client : Bool → ℕ → Clients → Served
add_client memory fd s =
    if has_client fd s.list
    then record { rc = fail; clients = s; closed = [] }
    else if memory
    then record {
      rc = success;
      clients = record {
        list = s.list ++ (record { clientfd = fd; buf = [] } ∷ []);
        count = s.count + 1;
      };
      closed = [];
    }
    else record { rc = fatal_error; clients = s; closed = fd ∷ [] }

unfoldable pub unlink_client : ℕ → List Client → List Client
unlink_client fd [] = []
unlink_client fd (c ∷ cs) =
    let rest = unlink_client fd cs in if c.clientfd == fd then cs else c ∷ rest

-- `--clients_count` on a `size_t` would wrap at 0, where a client has been found it is not 0.
unfoldable pub remove_client : ℕ → Clients → Served
remove_client fd s =
    if has_client fd s.list
    then record {
      rc = success;
      clients = record { list = unlink_client fd s.list; count = s.count - 1 };
      closed = fd ∷ [];
    }
    else record { rc = fail; clients = s; closed = [] }

unfoldable pub descriptors : List Client → List ℕ
descriptors [] = []
descriptors (c ∷ cs) = c.clientfd ∷ descriptors cs

unfoldable pub remove_all_clients : Clients → Clients × List ℕ
remove_all_clients s = (record { list = []; count = 0 }, descriptors s.list)
