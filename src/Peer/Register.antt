-- ===== src/Peer/Register.antt =====
-- server.go: `register`, and what `handle` does to the pool. A provider's `Target` is left out: the pool
-- never looks at it.
pub mod Listed
pub mod Refused
use httppooler.Base.{ℕ, suc, Bool, true, false, Option, none, some, List, [], ◌∷◌, ◌++◌}
use httppooler.Base.Bytes.{Bytes}
use httppooler.Base.Map.{get, put}
use httppooler.Wire.Message.{ProviderInfo}
use httppooler.Pool.Defs.{Provider, Pool, update, add, remove}

-- `&pool.Provider{...}`, which becomes the object `n`.
unfoldable pub new_provider : ℕ → Bytes → ProviderInfo → Pool → Pool
new_provider n peer info p = record p {
  store = record (p.store) {
    provider = update p.store.provider n (record {
      peer = peer;
      service = info.service;
      slots = info.max_concurrent;
      priority = info.priority;
      busy = 0;
      gone = false;
    });
  };
}

-- The providers that were made, or the service that has two of them.
pub data Registered : Type 0 where
  registered : (providers : List ℕ) → Registered
  twice : (service : Bytes) → Registered

-- The loop of `register`; `n` is the number of the next provider object.
unfoldable pub register_each :
    Bytes → List (Bytes × Bool) → List ProviderInfo → ℕ → List ℕ → Pool → Registered × Pool
register_each peer seen [] n providers p = (Registered.registered providers, p)
register_each peer seen (info ∷ infos) n providers p = elim (get info.service seen) [
  | some b ↦ (Registered.twice info.service, p)
  | none ↦
      register_each peer (put info.service true seen) infos (suc n) (providers ++ n ∷ [])
        (add n (new_provider n peer info p))
]

unfoldable pub register : Bytes → List ProviderInfo → ℕ → Pool → Registered × Pool
register peer infos n p = register_each peer [] infos n [] p

-- The deferred loop of `handle`.
unfoldable pub remove_each : List ℕ → Pool → Pool
remove_each [] p = p
remove_each (n ∷ ns) p = remove_each ns (remove n p)

-- What `handle` does to the pool from `register` on; `session` is what happens while the peer is there.
unfoldable pub handle : (Pool → Pool) → Registered × Pool → Pool
handle session (Registered.twice service, p) = p
handle session (Registered.registered providers, p) = remove_each providers (session p)
