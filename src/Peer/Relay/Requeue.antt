-- ===== src/Peer/Relay/Requeue.antt =====
-- Where a job stands in its queue when its provider vanishes.
use httppooler.Base.{
  ℕ, zero, suc, Bool, true, false, List, [], ◌∷◌, ◌++◌, ◌≡◌, ◌⊎◌, inl, inr, refl, sym, subst, ap,
  length,
}
use httppooler.Peer.Body.{Line}
use httppooler.Peer.Relay.{
  Ends, Outcome, Tried, Request, Provider, dispatch, Turn, Progress, Relayed, finished, before,
  concluded, relay,
}

-- The provider's connection ended before it had a RESPONSE relayed.
abbrev pub IsVanished : Tried → Type 0
IsVanished t = t.0 ≡ (false, Outcome.provider_gone)

module _ (line : Line) (req : Request) where
  -- Each turn was a lease, and its provider vanished, on the writers that the one before left.
  abbrev pub AllVanish : List Turn → Ends → Type 0
  AllVanish [] w = Unit
  AllVanish (Turn.leased p ∷ ts) w =
      IsVanished (dispatch line req p w).0 × AllVanish ts (dispatch line req p w).0.1
  AllVanish (t ∷ ts) w = ⊥

  -- The writers as those attempts left them.
  abbrev pub left_by : List Turn → Ends → Ends
  left_by [] w = w
  left_by (Turn.leased p ∷ ts) w = left_by ts (dispatch line req p w).0.1
  left_by (t ∷ ts) w = w

-- The `front` of `n` calls of `Acquire`: the first has `front`, and the others ask for the head of the
-- queue.
abbrev pub flags : Bool → ℕ → List Bool
flags front zero = []
flags front (suc n) = front ∷ flags true n

-- The turn `last` behind those whose providers vanished ended the job.
pub record HasSettled (line : Line) (req : Request) (front : Bool) (ts : List Turn) (w : Ends)
    (r : Relayed) : Type 0 where
  pub gone : List Turn
  pub last : Turn
  pub later : List Turn
  pub split : ts ≡ gone ++ last ∷ later
  pub vanished : AllVanish line req gone w
  pub settled : ¬ AllVanish line req (gone ++ last ∷ []) w
  pub fronts : r.fronts ≡ flags front (suc (length gone))
  pub progress : r.progress ≡ Progress.done

-- Every provider vanished, and the job still waits for another.
pub record IsWaiting (line : Line) (req : Request) (front : Bool) (ts : List Turn) (w : Ends)
    (r : Relayed) : Type 0 where
  pub vanished : AllVanish line req ts w
  pub fronts : r.fronts ≡ flags front (length ts)
  pub progress : r.progress ≡ Progress.waiting
  pub ends : r.ends ≡ left_by line req ts w

abbrev pub IsRequeued : Line → Request → Bool → List Turn → Ends → Relayed → Type 0
IsRequeued line req front ts w r =
    HasSettled line req front ts w r ⊎ IsWaiting line req front ts w r

module _ (line : Line) (req : Request) (front : Bool) (ts : List Turn) (w : Ends) where
  settled_at_once :
      (t : Turn) (v : Ends)
      → ¬ AllVanish line req (t ∷ []) w
      → HasSettled line req front (t ∷ ts) w (finished front v)
  settled_at_once t v n = record {
    gone = [];
    last = t;
    later = ts;
    split = refl;
    vanished = tt;
    settled = n;
    fronts = refl;
    progress = refl;
  }

  -- One provider more vanished before.
  vanished_first :
      (p : Provider) (r : Relayed)
      → IsVanished (dispatch line req p w).0
      → IsRequeued line req true ts (dispatch line req p w).0.1 r
      → IsRequeued line req front (Turn.leased p ∷ ts) w (before front r)
  vanished_first p r v (inl h) = inl (record {
    gone = Turn.leased p ∷ h.gone;
    last = h.last;
    later = h.later;
    split = ap (λ us. Turn.leased p ∷ us) h.split;
    vanished = (v, h.vanished);
    settled = λ a. h.settled a.1;
    fronts = ap (λ fs. front ∷ fs) h.fronts;
    progress = h.progress;
  })
  vanished_first p r v (inr h) = inr (record {
    vanished = (v, h.vanished);
    fronts = ap (λ fs. front ∷ fs) h.fronts;
    progress = h.progress;
    ends = h.ends;
  })

  abbrev vanishes : Bool × Outcome → Bool
  vanishes (false, Outcome.provider_gone) = true
  vanishes x = false

  not-IsVanished : (t u : Tried) → t ≡ u → vanishes t.0 ≡ false → ¬ IsVanished u
  not-IsVanished t u e f v = cc (f, ap (λ (x : Tried). vanishes x.0) e, ap vanishes v)

  concluded-IsRequeued :
      (p : Provider) (t : Tried) (rest : Ends → Relayed)
      → t ≡ (dispatch line req p w).0
      → ((v : Ends) → IsRequeued line req true ts v (rest v))
      → IsRequeued line req front (Turn.leased p ∷ ts) w (concluded line req.job front rest t)
  unfolding concluded
  concluded-IsRequeued p ((false, Outcome.provider_gone), v) rest e h =
      vanished_first p (rest v) (sym (ap (λ (x : Tried). x.0) e))
        (subst (λ (u : Tried). IsRequeued line req true ts u.1 (rest v)) e (h v))
  concluded-IsRequeued p ((true, Outcome.provider_gone), v) rest e h =
      inl (settled_at_once (Turn.leased p) _ (λ a. not-IsVanished _ _ e refl a.0))
  concluded-IsRequeued p ((true, o), v) rest e h =
      inl (settled_at_once (Turn.leased p) _ (λ a. not-IsVanished _ _ e refl a.0))
  concluded-IsRequeued p ((false, o), v) rest e h =
      inl (settled_at_once (Turn.leased p) _ (λ a. not-IsVanished _ _ e refl a.0))

-- A job whose provider vanishes before its RESPONSE is neither dropped nor answered by the server: as
-- long as each turn is a lease whose provider vanishes so, the job waits for the next turn and its writers
-- are as those attempts left them, and the first turn that is not of this kind ends it, whatever turns would follow. `Acquire` is called once for each of these
-- turns, the first time with the `front` that the job came with and then with `front` set, so that the
-- job stands at the head of its queue again.
pub relay-IsRequeued :
    (line : Line) (req : Request) (front : Bool) (ts : List Turn) (w : Ends)
    → IsRequeued line req front ts w (relay line req front ts w)
unfolding relay
relay-IsRequeued line req front [] w =
    inr (record { vanished = tt; fronts = refl; progress = refl; ends = refl })
relay-IsRequeued line req front (Turn.refused why ended ∷ ts) w =
    inl (settled_at_once line req front ts w (Turn.refused why ended) _ (λ a. a))
relay-IsRequeued line req front (Turn.unconnected ∷ ts) w =
    inl (settled_at_once line req front ts w Turn.unconnected _ (λ a. a))
relay-IsRequeued line req front (Turn.leased p ∷ ts) w =
    concluded-IsRequeued line req front ts w p (dispatch line req p w).0 (relay line req true ts)
      refl (λ v. relay-IsRequeued line req true ts v)
