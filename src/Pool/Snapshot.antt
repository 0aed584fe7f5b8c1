-- ===== src/Pool/Snapshot.antt =====
-- pool.go: `Snapshot`, what the log says of the pool.
pub mod Order
use httppooler.Base.{
  ℕ, Bool, true, false, ◌&&◌, ◌||◌, List, [], ◌∷◌, map, length, ltb, ◌==◌, if◌then◌else◌,
}
use httppooler.Base.Bytes.{Bytes}
use httppooler.Pool.Defs.{Provider, Service, Pool, service}

pub record ProviderState : Type 0 where
  pub peer : Bytes
  pub busy : ℕ
  pub slots : ℕ
  pub priority : ℕ

pub record ServiceState : Type 0 where
  pub name : Bytes
  pub waiting : ℕ
  pub providers : List ProviderState

-- `<` of two strings.
unfoldable pub less : Bytes → Bytes → Bool
less s [] = false
less [] (y ∷ t) = true
less (x ∷ s) (y ∷ t) = let rest = less s t in ltb x y || (x == y && rest)

unfoldable pub insert : Bytes → List Bytes → List Bytes
insert k [] = k ∷ []
insert k (x ∷ xs) = let rest = insert k xs in if less k x then k ∷ x ∷ xs else x ∷ rest

-- sort.Strings.
unfoldable pub sort_strings : List Bytes → List Bytes
sort_strings [] = []
sort_strings (x ∷ xs) = insert x (sort_strings xs)

unfoldable pub provider_state : Provider → ProviderState
provider_state pr = record {
  peer = pr.peer;
  busy = pr.busy;
  slots = pr.slots;
  priority = pr.priority;
}

-- The state of a service of the map.
unfoldable pub service_state : Pool → Bytes → ServiceState
service_state p name = record {
  name = name;
  waiting = length (service p name).waiters;
  providers = map (λ i. provider_state (p.store.provider i)) (service p name).providers;
}

unfoldable pub snapshot : Pool → List ServiceState
snapshot p = map (service_state p) (sort_strings (map (λ s. s.0) p.services))
