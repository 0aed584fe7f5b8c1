-- ===== src/Wire/Decoder/Rounds.antt =====
-- The loops over counted items: rounds that each read one item behind those already read.
use httppooler.Base.{
  ℕ, suc, ◌≡◌, ◌↔◌, refl, sym, ap, ◌∙◌, List, [], ◌∷◌, ◌++◌, length, arith, append_assoc,
  append-nil, All,
}
use httppooler.Base.Bytes.{Bytes}
use httppooler.Wire.Layout.{each_layout}
use httppooler.Wire.Decoder.Reads.{Then}

-- One item: in its range, within its Go type, and laid out by `enc`.
abbrev pub Item : {A : Type 0} (V F : A → Type 0) (enc : A → Bytes) → A → Bytes → Type 0
Item V F enc a used = V a × F a × (used ≡ enc a)

-- The items of `n` more rounds, behind those of `acc`; `wrap` is how the loop returns its list.
abbrev pub Rounds :
    {A B : Type 0} (V F : A → Type 0) (enc : A → Bytes) (wrap : List A → B)
    → ℕ
    → List A
    → B
    → Bytes
    → Type 0
Rounds {A} V F enc wrap n acc b used =
    (ys : List A) × (b ≡ wrap (acc ++ ys))
    × (length ys ≡ n)
    × All V ys
    × All F ys
    × (used ≡ each_layout enc ys)

module _ {A B : Type 0} (V F : A → Type 0) (enc : A → Bytes) (wrap : List A → B) where
  no-Rounds_from :
      (acc : List A) (b : B) (used : Bytes)
      → Rounds V F enc wrap 0 acc b used
      → (b ≡ wrap acc) × (used ≡ [])
  no-Rounds_from acc b used ([], e, l, v, f, u) = (e ∙ ap wrap (append-nil acc), u)
  no-Rounds_from acc b used (y ∷ ys, e, l, v, f, u) = absurd (omega arith)

  pub no-Rounds :
      (acc : List A) (b : B) (used : Bytes)
      → ((b ≡ wrap acc) × (used ≡ [])) ↔ Rounds V F enc wrap 0 acc b used
  no-Rounds acc b used = (
    (λ (e, n). ([], e ∙ ap wrap (sym (append-nil acc)), refl, tt, tt, n)),
    no-Rounds_from acc b used,
  )

  one_round_from :
      (n : ℕ) (acc : List A) (b : B) (used : Bytes)
      → Rounds V F enc wrap (suc n) acc b used
      → Then (Item V F enc) (λ h. Rounds V F enc wrap n (acc ++ h ∷ [])) b used
  one_round_from n acc b used ([], e, l, v, f, u) = absurd (omega arith)
  one_round_from n acc b used (h ∷ ys, e, l, (vh, vs), (fh, fs), u) = (
    h,
    enc h,
    each_layout enc ys,
    (vh, fh, refl),
    (ys, e ∙ ap wrap (sym (append_assoc acc (h ∷ []) ys)), omega arith, vs, fs, refl),
    u,
  )

  pub one_round :
      (n : ℕ) (acc : List A) (b : B) (used : Bytes)
      → Then (Item V F enc) (λ h. Rounds V F enc wrap n (acc ++ h ∷ [])) b used
        ↔ Rounds V F enc wrap (suc n) acc b used
  one_round n acc b used = (
    (λ (h, u, v, (vh, fh, eu), (ys, e, l, vs, fs, ev), eq). (
      h ∷ ys,
      e ∙ ap wrap (append_assoc acc (h ∷ []) ys),
      ap suc l,
      (vh, vs),
      (fh, fs),
      rw (eq, eu, ev),
    )),
    one_round_from n acc b used,
  )
