-- ===== src/Text/Parts.antt =====
-- strings.Split and strings.Join undo one another.
use cryptofiend.Prelude.{
  ℕ, zero, suc, ◌-◌, ◌≡◌, refl, sym, ap, ◌∙◌, ◌≢◌, inl, inr, true, false, List, [], ◌∷◌, ◌++◌,
  append-nil, append_assoc, arith, Bool-cases, Text, length, drop, All,
}
use cryptofiend.Text.{contains, has_prefix, cut, split, join}
use cryptofiend.Text.Search.{has_prefix-eq}

cut-ne-nil : (sep s : Text) (skip : ℕ) (cur : Text) → cut sep s skip cur ≢ []
unfolding cut
cut-ne-nil sep [] skip cur = λ h. cc
cut-ne-nil sep (c ∷ s) (suc skip) cur = cut-ne-nil sep s skip cur
cut-ne-nil sep (c ∷ s) zero cur = ground (arith, cut-ne-nil sep s zero (cur ++ c ∷ []))

join-cons :
    (p : Text) (ps : List Text) (sep : Text)
    → ps ≢ []
    → join (p ∷ ps) sep ≡ p ++ (sep ++ join ps sep)
unfolding join
join-cons p [] sep h = absurd (h refl)
join-cons p (q ∷ ps) sep h = refl

module _ (x : ℕ) (sep : Text) (c : ℕ) (s cur : Text) where
  cut_at_sep :
      has_prefix (x ∷ sep) (c ∷ s) ≡ true
      → cut (x ∷ sep) (c ∷ s) zero cur ≡ cur ∷ cut (x ∷ sep) s (length sep) []
  unfolding cut
  cut_at_sep h = let e : suc (length sep) - 1 ≡ length sep = omega arith in ground (arith, e)

  cut_at_other :
      has_prefix (x ∷ sep) (c ∷ s) ≡ false
      → cut (x ∷ sep) (c ∷ s) zero cur ≡ cut (x ∷ sep) s zero (cur ++ c ∷ [])
  unfolding cut
  cut_at_other h = ground arith

cut_skip :
    (sep : Text) (c : ℕ) (s : Text) (skip : ℕ) (cur : Text)
    → cut sep (c ∷ s) (suc skip) cur ≡ cut sep s skip cur
unfolding cut
cut_skip sep c s skip cur = refl

-- Joining the parts of a scan spells what was read and, past the skipped bytes, what is left.
join-cut :
    (x : ℕ) (sep s : Text) (skip : ℕ) (cur : Text)
    → join (cut (x ∷ sep) s skip cur) (x ∷ sep) ≡ cur ++ drop skip s
join-cut x sep [] zero cur = unfold join cut in sym (append-nil cur)
join-cut x sep [] (suc skip) cur = unfold join cut in sym (append-nil cur)
join-cut x sep (c ∷ s) (suc skip) cur = rw cut_skip (join-cut x sep s skip cur)
join-cut x sep (c ∷ s) zero cur = elim (Bool-cases (has_prefix (x ∷ sep) (c ∷ s))) [
  | inl here ↦ rw (cut_at_sep x sep c s cur here) (
      rw
        (join-cons cur (cut (x ∷ sep) s (length sep) []) (x ∷ sep)
          (cut-ne-nil (x ∷ sep) s (length sep) []))
        (rw (join-cut x sep s (length sep) [])
          (ap (λ l. cur ++ l) (has_prefix-eq (x ∷ sep) (c ∷ s) here))))
  | inr no_sep ↦
      rw (cut_at_other x sep c s cur no_sep)
        (rw (join-cut x sep s zero (cur ++ c ∷ [])) (append_assoc cur (c ∷ []) s))
]

-- Joining the parts of a split by its separator, any text that is not empty, gives the text back.
pub join-split : (s sep : Text) → sep ≢ [] → join (split s sep) sep ≡ s
unfolding split
join-split s [] h = absurd (h refl)
join-split s (x ∷ sep) h = join-cut x sep s zero []

-- No byte of the text is the separator.
abbrev pub Lacks : ℕ → Text → Type 0
Lacks x = All (λ c. c ≢ x)

cut-append :
    (x : ℕ) (p rest cur : Text)
    → Lacks x p
    → cut (x ∷ []) (p ++ rest) zero cur ≡ cut (x ∷ []) rest zero (cur ++ p)
cut-append x [] rest cur h = rw append-nil
cut-append x (c ∷ p) rest cur h =
    rw (cut_at_other x [] c (p ++ rest) cur (unfold has_prefix in ground (arith, h.0)))
      (rw (cut-append x p rest (cur ++ c ∷ []) h.1) (rw append_assoc))

cut-whole : (x : ℕ) (p cur : Text) → Lacks x p → cut (x ∷ []) p zero cur ≡ (cur ++ p) ∷ []
cut-whole x [] cur h = unfold cut in ap (λ l. l ∷ []) (sym (append-nil cur))
cut-whole x (c ∷ p) cur h =
    rw (cut_at_other x [] c p cur (unfold has_prefix in ground (arith, h.0)))
      (rw (cut-whole x p (cur ++ c ∷ []) h.1) (rw append_assoc))

cut-sep :
    (x : ℕ) (rest cur : Text) → cut (x ∷ []) (x ∷ rest) zero cur ≡ cur ∷ cut (x ∷ []) rest zero []
cut-sep x rest cur = cut_at_sep x [] x rest cur (unfold has_prefix in ground arith)

cut-join :
    (x : ℕ) (p : Text) (ps : List Text) (cur : Text)
    → All (Lacks x) (p ∷ ps)
    → cut (x ∷ []) (join (p ∷ ps) (x ∷ [])) zero cur ≡ (cur ++ p) ∷ ps
cut-join x p [] cur h = unfold join in cut-whole x p cur h.0
cut-join x p (q ∷ ps) cur h = rw (join-cons p (q ∷ ps) (x ∷ []) (λ e. cc)) (
    rw (cut-append x p (x ∷ join (q ∷ ps) (x ∷ [])) cur h.0)
      (rw cut-sep (ap (λ l. (cur ++ p) ∷ l) (cut-join x q ps [] h.1))))

-- Splitting a join by one byte gives the parts back, if there is a part and none holds the byte.
pub split-join :
    (ps : List Text) (x : ℕ) → ps ≢ [] → All (Lacks x) ps → split (join ps (x ∷ [])) (x ∷ []) ≡ ps
unfolding split
split-join [] x h _ = absurd (h refl)
split-join (p ∷ ps) x _ h = cut-join x p ps [] h

-- A text without the separator is its only part.
pub split-Lacks : (s : Text) (x : ℕ) → Lacks x s → split s (x ∷ []) ≡ s ∷ []
unfolding split
split-Lacks s x h = cut-whole x s [] h

-- A text of two parts.
pub split_two :
    (p q : Text) (x : ℕ) → Lacks x p → Lacks x q → split (p ++ (x ∷ q)) (x ∷ []) ≡ p ∷ q ∷ []
unfolding split
split_two p q x hp hq =
    rw (cut-append x p (x ∷ q) [] hp) (rw (cut-sep x q p) (rw (cut-whole x q [] hq)))

-- A split yields a part at least.
pub split-ne-nil : (s : Text) (x : ℕ) (sep : Text) → split s (x ∷ sep) ≢ []
unfolding split
split-ne-nil s x sep = cut-ne-nil (x ∷ sep) s zero []

not_in_nil : (x : ℕ) (sep : Text) → contains [] (x ∷ sep) ≡ true → ⊥
unfolding contains
not_in_nil x sep h = cc

contains_tail :
    (sub : Text) (c : ℕ) (s : Text)
    → has_prefix sub (c ∷ s) ≡ false
    → contains (c ∷ s) sub ≡ true
    → contains s sub ≡ true
unfolding contains
contains_tail sub c s p h = ground arith

cons-of-ne-nil {ℓ} : {A : Type ℓ} (l : List A) → l ≢ [] → (a : A) × (r : List A) × (l ≡ a ∷ r)
cons-of-ne-nil [] h = absurd (h refl)
cons-of-ne-nil (a ∷ r) h = (a, r, refl)

-- A text that contains the separator has two parts at least.
cut-contains :
    (x : ℕ) (sep s cur : Text)
    → contains s (x ∷ sep) ≡ true
    → (a b : Text) × (rest : List Text) × (cut (x ∷ sep) s zero cur ≡ a ∷ (b ∷ rest))
cut-contains x sep [] cur h = absurd (not_in_nil x sep h)
cut-contains x sep (c ∷ s) cur h = elim (Bool-cases (has_prefix (x ∷ sep) (c ∷ s))) [
  | inl here ↦
      let next = cons-of-ne-nil _ (cut-ne-nil (x ∷ sep) s (length sep) []) in
      (cur, next.0, next.1, cut_at_sep x sep c s cur here ∙ ap (λ l. cur ∷ l) next.2)
  | inr no_sep ↦
      let later = cut-contains x sep s (cur ++ c ∷ []) (contains_tail (x ∷ sep) c s no_sep h) in
      (later.0, later.1, later.2, cut_at_other x sep c s cur no_sep ∙ later.3)
]

pub split-contains :
    (x : ℕ) (sep s : Text)
    → contains s (x ∷ sep) ≡ true
    → (a b : Text) × (rest : List Text) × (split s (x ∷ sep) ≡ a ∷ (b ∷ rest))
unfolding split
split-contains x sep s h = cut-contains x sep s [] h
