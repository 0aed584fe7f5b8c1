-- ===== src/Peer/Register/Refused.antt =====
-- Which HELLO `register` refuses.
use httppooler.Base.{ℕ, ◌≡◌, ◌⊎◌, Bool, none, List, map, length}
use httppooler.Base.Bytes.{Bytes}
use httppooler.Base.Map.{get}
use httppooler.Base.Unique.{Among, Unique}
use httppooler.Wire.Message.{ProviderInfo}
use httppooler.Pool.Defs.{Pool}
use httppooler.Peer.Register.{Registered}

abbrev pub services : List ProviderInfo → List Bytes
services = map (λ i. i.service)

abbrev AreFresh : List Bytes → List (Bytes × Bool) → Type 0
AreFresh names seen = (k : Bytes) → Among k names → get k seen ≡ none

-- As many providers as there are in `made` and to come, or the loop refuses.
abbrev pub IsDecided : Type 0 → ℕ → Registered → Type 0
IsDecided ok n r =
    (ok × ((ps : List ℕ) × ((r ≡ Registered.registered ps) × (length ps ≡ n))))
    ⊎ ((¬ ok) × ((name : Bytes) × (r ≡ Registered.twice name)))

-- No service stands twice among the providers to come, and none of them was seen.
abbrev AreNew : List ProviderInfo → List (Bytes × Bool) → Type 0
AreNew infos seen = Unique (services infos) × AreFresh (services infos) seen
