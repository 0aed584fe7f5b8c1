-- ===== src/Pool/Serve.antt =====
-- The loop of `dispatch`: oldest job first, until the jobs or the free slots run out.
use httppooler.Base.{
  ℕ, zero, suc, ◌+◌, ◌≡◌, ◌≢◌, refl, sym, ap, subst, ◌∙◌, ◌⊎◌, inl, inr, Option, none, some, List,
  [], ◌∷◌, ◌++◌, length, length-append, All, All-imp, arith, Option-cases, Bool-cases, ◌==◌,
  append_assoc, append-nil,
}
use httppooler.Base.Bytes.{Bytes}
use httppooler.Pool.Defs.{Store, Lease, Waiter, best, take, send, serve}
use httppooler.Pool.Best.{Elem, All-Elem, best-some}
use httppooler.Pool.Accounts.{
  Balanced, Changes, Changes-refl, Changes-trans, take-Changes, take-Balanced, send-Balanced,
  send-Changes, fresh_lease, update_ne,
}

-- The member at a place of a list.
abbrev pub member : List ℕ → ℕ → Option ℕ
member [] k = none
member (x ∷ xs) zero = some x
member (x ∷ xs) (suc k) = member xs k

-- The waiter `w` is the one at some place `k` of `served`, and its channel holds the lease numbered
-- `k` places after `first`. So two waiters never hold one lease.
pub record HasLease (served : List ℕ) (first : ℕ) (st : Store) (w : ℕ) : Type 0 where
  pub place : ℕ
  pub stands : member served place ≡ some w
  pub lease : (st.waiter w).lease ≡ some (first + place)

-- A lease of the service, open, on one of the providers.
abbrev pub IsMade : Bytes → List ℕ → Lease → Type 0
IsMade name providers l = (i : ℕ) × (l ≡ fresh_lease name i) × Elem i providers

-- What a run of the loop over the queue `ws` leaves: `left` of the queue, and `st'`.
pub record Served (name : Bytes) (providers ws : List ℕ) (st : Store) (left : List ℕ) (st' : Store)
    : Type 0 where
  pub balanced : Balanced st'
  pub changes : Changes name st st'
  pub idle : (left ≡ []) ⊎ (best st'.provider providers ≡ none)
  pub served : List ℕ
  pub in_order : ws ≡ served ++ left
  pub made : List Lease
  pub leases : st'.leases ≡ st.leases ++ made
  pub one_each : length made ≡ length served
  pub sound : All (IsMade name providers) made
  pub leased : (w : ℕ) → Elem w served → HasLease served (length st.leases) st' w
  pub others : (w : ℕ) → ¬ Elem w served → st'.waiter w ≡ st.waiter w

Elem-cases : (w : ℕ) (xs : List ℕ) → Elem w xs ⊎ (¬ Elem w xs)
Elem-cases w [] = inr (λ e. e)
Elem-cases w (x ∷ xs) = elim (Bool-cases (w == x)) [
  | inl same ↦ inl (inl (ground arith))
  | inr other ↦ elim (Elem-cases w xs) [
    | inl m ↦ inl (inr m)
    | inr n ↦ inr (λ m. elim m [ inl e ↦ ground arith | inr t ↦ n t ])
  ]
]

module _ (name : Bytes) (providers : List ℕ) where
  abbrev Ours : Store → Type 0
  Ours st = All (λ i. (st.provider i).service ≡ name) providers

  Ours-Changes : {st st' : Store} → Changes name st st' → Ours st → Ours st'
  Ours-Changes {st} {st'} c =
      All-imp (λ i. (st.provider i).service ≡ name) (λ i. (st'.provider i).service ≡ name) providers
        (λ i e. c.services i ∙ e)

  abbrev given : ℕ → ℕ → Store → Store
  given w i st = send w (length st.leases) (take name i st)

  given_self : (w i : ℕ) (st : Store) → ((given w i st).waiter w).lease ≡ some (length st.leases)
  unfolding send take
  given_self w i st = ground arith

  given-other : (w i v : ℕ) (st : Store) → w ≢ v → (given w i st).waiter v ≡ st.waiter v
  unfolding send take
  given-other w i v st ne = update_ne st.waiter w _ v ne

  given-leases :
      (w i : ℕ) (st : Store) → (given w i st).leases ≡ st.leases ++ fresh_lease name i ∷ []
  unfolding send take
  given-leases w i st = refl

  given-made : (w i : ℕ) (st : Store) → length (given w i st).leases ≡ length st.leases + 1
  given-made w i st = ap length (given-leases w i st) ∙ length-append st.leases _

  serve_stop :
      (w : ℕ) (ws : List ℕ) (st : Store)
      → best st.provider providers ≡ none
      → serve name providers (w ∷ ws) st ≡ (w ∷ ws, st)
  unfolding serve
  serve_stop w ws st e = rw (e, serve)

  serve_step :
      (w i : ℕ) (ws : List ℕ) (st : Store)
      → best st.provider providers ≡ some i
      → serve name providers (w ∷ ws) st ≡ serve name providers ws (given w i st)
  unfolding serve
  serve_step w i ws st e = rw (e, serve)

  stopped :
      (ws : List ℕ) (st : Store)
      → Balanced st
      → (ws ≡ []) ⊎ (best st.provider providers ≡ none)
      → Served name providers ws st ws st
  stopped ws st b idle = record {
    balanced = b;
    changes = Changes-refl name st;
    idle = idle;
    served = [];
    in_order = refl;
    made = [];
    leases = sym (append-nil st.leases);
    one_each = refl;
    sound = tt;
    leased = λ w e. absurd e;
    others = λ w n. refl;
  }

  -- The first job of the queue is given a slot, and the loop goes on.
  stepped :
      (w i : ℕ) (ws : List ℕ) (st : Store) {left : List ℕ} {st' : Store}
      → Elem i providers
      → Changes name st (given w i st)
      → Served name providers ws (given w i st) left st'
      → Served name providers (w ∷ ws) st left st'
  stepped w i ws st {left} {st'} m c s = record {
    balanced = s.balanced;
    changes = Changes-trans name c s.changes;
    idle = s.idle;
    served = w ∷ s.served;
    in_order = ap (◌∷◌ w) s.in_order;
    made = fresh_lease name i ∷ s.made;
    leases =
        s.leases
        ∙ ap (λ ls. ls ++ s.made) (given-leases w i st)
        ∙ append_assoc st.leases (fresh_lease name i ∷ []) s.made;
    one_each = ap suc s.one_each;
    sound = ((i, refl, m), s.sound);
    leased = λ v e. elim (Elem-cases v s.served) [
      | inl later ↦
          let h = s.leased v later in
          record {
            place = suc h.place;
            stands = h.stands;
            lease = h.lease ∙ ap some (omega (arith, given-made w i st));
          }
      | inr gone ↦
          let here : v ≡ w = elim e [ inl x ↦ x | inr x ↦ absurd (gone x) ] in
          record {
            place = 0;
            stands = ap some (sym here);
            lease =
                ap (λ (x : Waiter). x.lease) (s.others v gone)
                ∙ subst (λ x. ((given w i st).waiter x).lease ≡ some (length st.leases)) (sym here)
                    (given_self w i st)
                ∙ ap some (omega arith);
          }
    ];
    others = λ v n. s.others v (λ e. n (inr e)) ∙ given-other w i v st (λ e. n (inl (sym e)));
  }

  abbrev Run : List ℕ → Store → List ℕ × Store → Type 0
  Run ws st r = Served name providers ws st r.0 r.1

  -- On balanced accounts, with providers that name the service, the loop keeps the accounts, touches
  -- no other service, and ends with an empty queue or with no provider that has a free slot. The jobs
  -- it serves are the oldest. For each of them it adds one open lease of the service on one of the
  -- providers, behind the leases there were. The waiter at the place `k` among the served holds the
  -- lease at the place `k` among the new ones (a waiter that is served at several places, at one of
  -- them), and any other waiter is as it was.
  pub serve-Served :
      (ws : List ℕ) (st : Store)
      → Balanced st
      → All (λ i. (st.provider i).service ≡ name) providers
      → Run ws st (serve name providers ws st)
  serve-Served [] st b o = unfold serve in stopped [] st b (inl refl)
  serve-Served (w ∷ ws) st b o = elim (Option-cases (best st.provider providers)) [
    | inl e ↦ subst (Run (w ∷ ws) st) (sym (serve_stop w ws st e)) (stopped (w ∷ ws) st b (inr e))
    | inr (i, e) ↦
        let (joined, room, all) = best-some st.provider providers i e in
        let ours = All-Elem (λ j. (st.provider j).service ≡ name) i providers o joined in
        let taken = take-Changes name i st ours in
        let changes =
          Changes-trans name taken (send-Changes name w (length st.leases) (take name i st)) in
        let balanced =
          send-Balanced name w (length st.leases) (take name i st)
            (take-Balanced name i st ours room b) in
        subst (Run (w ∷ ws) st) (sym (serve_step w i ws st e)) (
          stepped w i ws st joined changes
            (serve-Served ws (given w i st) balanced (Ours-Changes changes o)))
  ]
