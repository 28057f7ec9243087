-- ===== src/Tests/Connections.antt =====
-- Clients.
use dtmd.Common.{true, arith, [], ◌∷◌}
use dtmd.Clients.Store.{Clients, add_client, remove_client}
use dtmd.Clients.Invariant.{IsValid, Lacks, add_client-IsValid, remove_client-IsValid}

abbrev two : Clients
two = record {
  list = record { clientfd = 7; buf = [] } ∷ record { clientfd = 9; buf = [] } ∷ [];
  count = 2;
}

two-IsValid : IsValid two
two-IsValid = omega arith

add_client-IsValid_example : IsValid (add_client true 8 two).clients
add_client-IsValid_example = add_client-IsValid true 8 two two-IsValid

remove_client-IsValid_example :
    IsValid (remove_client 7 two).clients × Lacks 7 (remove_client 7 two).clients.list
remove_client-IsValid_example = remove_client-IsValid 7 two two-IsValid
