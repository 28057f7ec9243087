-- ===== src/Clients/Invariant.antt =====
-- No descriptor stands twice, and the counter counts the clients.
use dtmd.Common.{
  ℕ, ◌+◌, Bool, true, false, List, [], ◌∷◌, ◌++◌, ◌≡◌, ◌≢◌, inl, inr, sym, refl, arith, ◌==◌,
  Bool-cases, All, All-append, length, length-append, if_both, if_cases, ==_iff, subst,
}
use dtmd.Clients.Store.{
  Client, Clients, Served, has_client, add_client, unlink_client, remove_client,
}

abbrev pub Lacks : ℕ → List Client → Type 0
Lacks fd = All (λ c. c.clientfd ≢ fd)

abbrev pub Distinct : List Client → Type 0
Distinct [] = Unit
Distinct (c ∷ cs) = Lacks c.clientfd cs × Distinct cs

pub record IsValid (s : Clients) : Type 0 where
  pub distinct : Distinct s.list
  pub counted : s.count ≡ length s.list

has_client-Lacks : (fd : ℕ) (cs : List Client) → has_client fd cs ≡ false → Lacks fd cs
unfolding has_client
has_client-Lacks fd [] h = tt
has_client-Lacks fd (c ∷ cs) h = ground (arith, has_client-Lacks fd cs)

Lacks-has_client : (fd : ℕ) (cs : List Client) → Lacks fd cs → has_client fd cs ≡ false
unfolding has_client
Lacks-has_client fd [] h = refl
Lacks-has_client fd (c ∷ cs) h = ground (arith, Lacks-has_client fd cs h.1)

Distinct-append :
    (cs : List Client) (c : Client) → Distinct cs → Lacks c.clientfd cs → Distinct (cs ++ c ∷ [])
Distinct-append [] c d l = (tt, tt)
Distinct-append (x ∷ cs) c d l = (
  All-append (λ y. y.clientfd ≢ x.clientfd) cs (c ∷ []) d.0 (λ e. l.0 (sym e), tt),
  Distinct-append cs c d.1 l.1,
)

unlink_client-Lacks : (fd a : ℕ) (cs : List Client) → Lacks a cs → Lacks a (unlink_client fd cs)
unfolding unlink_client
unlink_client-Lacks fd a [] l = tt
unlink_client-Lacks fd a (c ∷ cs) l = ground (arith, unlink_client-Lacks fd a cs l.1)

unlink_client-Distinct : (fd : ℕ) (cs : List Client) → Distinct cs → Distinct (unlink_client fd cs)
unfolding unlink_client
unlink_client-Distinct fd [] d = tt
unlink_client-Distinct fd (c ∷ cs) d =
    ground (arith, unlink_client-Distinct fd cs d.1, unlink_client-Lacks fd c.clientfd cs d.0)

unlink_client-gone : (fd : ℕ) (cs : List Client) → Distinct cs → Lacks fd (unlink_client fd cs)
unfolding unlink_client
unlink_client-gone fd [] d = tt
unlink_client-gone fd (c ∷ cs) d = elim (Bool-cases (c.clientfd == fd)) [
  | inl e ↦ rw e (subst (λ a. Lacks a cs) ((==_iff c.clientfd fd).0 e) d.0)
  | inr n ↦ rw n (ground arith, unlink_client-gone fd cs d.1)
]

length-unlink_client :
    (fd : ℕ) (cs : List Client)
    → has_client fd cs ≡ true
    → length (unlink_client fd cs) + 1 ≡ length cs
unfolding unlink_client has_client
length-unlink_client fd [] h = cc
length-unlink_client fd (c ∷ cs) h = ground (arith, length-unlink_client fd cs)

-- `add_client` keeps the descriptors distinct and the counter right, on every branch.
pub add_client-IsValid :
    (memory : Bool) (fd : ℕ) (s : Clients) → IsValid s → IsValid (add_client memory fd s).clients
unfolding add_client
add_client-IsValid memory fd s v =
    let new : Client = record { clientfd = fd; buf = [] } in
    if_cases (λ (r : Served). IsValid r.clients) (has_client fd s.list) (λ _. v)
      (λ n.
        if_both (λ (r : Served). IsValid r.clients) memory
          (record {
            distinct = Distinct-append s.list new v.distinct (has_client-Lacks fd s.list n);
            counted = omega (arith, v.counted, length-append s.list (new ∷ []));
          })
          v)

-- `remove_client` keeps the descriptors distinct and the counter right, and afterwards no client
-- has the descriptor, whether one had it or not.
pub remove_client-IsValid :
    (fd : ℕ) (s : Clients)
    → IsValid s
    → IsValid (remove_client fd s).clients × Lacks fd (remove_client fd s).clients.list
unfolding remove_client
remove_client-IsValid fd s v =
    if_cases (λ (r : Served). IsValid r.clients × Lacks fd r.clients.list) (has_client fd s.list)
      (λ y. (
        record {
          distinct = unlink_client-Distinct fd s.list v.distinct;
          counted = omega (arith, v.counted, length-unlink_client fd s.list y);
        },
        unlink_client-gone fd s.list v.distinct,
      ))
      (λ n. (v, has_client-Lacks fd s.list n))
