-- ===== src/Pool/Invariant.antt =====
-- The invariant of the pool: the accounts balance, and no job waits beside a free slot.
use httppooler.Base.{
  ℕ, ◌≡◌, ◌≢◌, sym, subst, ◌∙◌, ◌⊎◌, inl, inr, none, some, List, [], All, All-imp, arith,
  Bool-cases, if◌then◌else◌,
}
use httppooler.Base.Bytes.{Bytes}
use httppooler.Base.Map.{get, put, get-put, bytes_eq, bytes_eq_iff}
use httppooler.Pool.Defs.{Service, Store, Pool, best, dispatch}
use httppooler.Pool.Best.{best_local}
use httppooler.Pool.Accounts.{Balanced, Changes}
use httppooler.Pool.Serve.{serve-Served}

-- The providers of a service's pool name that service.
abbrev pub Members : Store → Bytes → Service → Type 0
Members st name s = All (λ i. (st.provider i).service ≡ name) s.providers

-- Nobody waits for a service while one of its providers has a free slot.
abbrev pub IsFair : Store → Service → Type 0
IsFair st s = (s.waiters ≡ []) ⊎ (best st.provider s.providers ≡ none)

abbrev pub Fine : Store → Bytes → Service → Type 0
Fine st name s = Members st name s × IsFair st s

pub record IsSound (p : Pool) : Type 0 where
  pub balanced : Balanced p.store
  pub fine : (name : Bytes) (s : Service) → get name p.services ≡ some s → Fine p.store name s

module _ {name : Bytes} {st st' : Store} (c : Changes name st st') where
  pub Members-Changes : (k : Bytes) (s : Service) → Members st k s → Members st' k s
  Members-Changes k s =
      All-imp (λ i. (st.provider i).service ≡ k) (λ i. (st'.provider i).service ≡ k) s.providers
        (λ i e. c.services i ∙ e)

  -- Another service is as it was.
  pub Fine-elsewhere : (k : Bytes) (s : Service) → name ≢ k → Fine st k s → Fine st' k s
  Fine-elsewhere k s n (m, fair) = (
    Members-Changes k s m,
    (let same : best st'.provider s.providers ≡ best st.provider s.providers =
          best_local st.provider st'.provider s.providers (
            All-imp (λ i. (st.provider i).service ≡ k) (λ i. st'.provider i ≡ st.provider i)
              s.providers (λ i e. c.elsewhere i (λ f. n (sym f ∙ e))) m) in
        rw same fair),
  )

  -- A new entry for `name`, and changes to its providers only.
  pub put-IsSound :
      (timeout next_waiter : ℕ) (services : List (Bytes × Service)) (s : Service)
      → ((k : Bytes) (t : Service) → name ≢ k → get k services ≡ some t → Fine st k t)
      → Balanced st'
      → Fine st' name s
      → IsSound (record {
        timeout = timeout;
        services = put name s services;
        store = st';
        next_waiter = next_waiter;
      })
  put-IsSound timeout next_waiter services s others b f = record {
    balanced = b;
    fine = λ k t e. entry k t (rw get-put at e);
  }
    where
      entry :
          (k : Bytes) (t : Service)
          → (if bytes_eq name k then some s else get k services) ≡ some t
          → Fine st' k t
      entry k t e = elim (Bool-cases (bytes_eq name k)) [
        | inl same ↦
            let here : name ≡ k = (bytes_eq_iff name k).0 same in
            let found : s ≡ t = ground (arith, same) in
            subst (λ u. Fine st' k u) found (subst (λ j. Fine st' j s) here f)
        | inr ne ↦
            Fine-elsewhere k t (λ e. cc (ne, (bytes_eq_iff name k).1 e))
              (others k t (λ e. cc (ne, (bytes_eq_iff name k).1 e)) (ground (arith, ne)))
      ]

-- `dispatch` on a service whose providers are members makes the whole pool sound, if its accounts
-- balance and the other services were fine.
pub dispatch-IsSound :
    (name : Bytes) (s : Service) (p : Pool)
    → Balanced p.store
    → Members p.store name s
    → ((k : Bytes) (t : Service) → name ≢ k → get k p.services ≡ some t → Fine p.store k t)
    → IsSound (dispatch name s p)
unfolding dispatch
dispatch-IsSound name s p b m others =
    let run = serve-Served name s.providers s.waiters p.store b m in
    put-IsSound run.changes p.timeout p.next_waiter p.services _ others run.balanced
      (Members-Changes run.changes name s m, run.idle)
