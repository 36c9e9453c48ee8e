-- ===== src/GoMap/Nested.antt =====
-- Maps of maps of maps, as the order books and the tickers are kept: by the first currency, the
-- second one and a type. `put` is what a store of one value means; `entry` reads one.
use cryptofiend.Prelude.{
  [], ◌&&◌, Option, none, some, ◌≡◌, arith, Text, text_eq, text_eq_iff, text_eq_refl, inl, inr,
  Bool-cases, if◌then◌else◌, ◌>>=◌, Bool-cases, inl, inr,
}
use cryptofiend.GoMap.{GoMap, lookup, insert, lookup-insert, lookup-insert_self, lookup-nil}

abbrev pub Nested {ℓ} : Type ℓ → Type ℓ
Nested V = GoMap (GoMap (GoMap V))

-- A missing key reads as the nil map, which has no keys.
abbrev pub or_nil {ℓ} : {V : Type ℓ} → Option (GoMap V) → GoMap V
or_nil none = []
or_nil (some m) = m

module _ {ℓ} {V : Type ℓ} where
  -- The two inner levels.
  abbrev inner_entry : Text → Text → GoMap (GoMap V) → Option V
  inner_entry s t a = do b ← lookup s a; lookup t b

  abbrev inner_put : Text → Text → V → GoMap (GoMap V) → GoMap (GoMap V)
  inner_put s t v a = insert s (insert t v (or_nil (lookup s a))) a

  -- `v, ok := m[f][s][t]`
  unfoldable pub entry : Text → Text → Text → Nested V → Option V
  entry f s t m = do a ← lookup f m; inner_entry s t a

  unfoldable pub put : Text → Text → Text → V → Nested V → Nested V
  put f s t v m = insert f (inner_put s t v (or_nil (lookup f m))) m

  or_nil-lookup :
      (s t : Text) (a : GoMap (GoMap V)) → inner_entry s t a ≡ lookup t (or_nil (lookup s a))
  or_nil-lookup s t a = ground (arith, lookup-nil {V = V} t)

  inner_entry-inner_put :
      (s t s' t' : Text) (v : V) (a : GoMap (GoMap V))
      → inner_entry s' t' (inner_put s t v a)
        ≡ (if text_eq s s' && text_eq t t' then some v else inner_entry s' t' a)
  inner_entry-inner_put s t s' t' v a = elim (Bool-cases (text_eq s s')) [
    | inl same ↦
        rw (← (text_eq_iff s s').0 same, text_eq_refl, or_nil-lookup s t' a, lookup-insert_self)
          (lookup-insert t t' v (or_nil (lookup s a)))
    | inr other ↦ rw (lookup-insert, other)
  ]

  entry-or_nil :
      (f s t : Text) (m : Nested V) → entry f s t m ≡ inner_entry s t (or_nil (lookup f m))
  unfolding entry
  entry-or_nil f s t m = ground (arith, lookup-nil {V = GoMap V} s)

  -- A value that was put is read back, and no other entry changes.
  pub entry-put :
      (f s t f' s' t' : Text) (v : V) (m : Nested V)
      → entry f' s' t' (put f s t v m)
        ≡ (if text_eq f f' && (text_eq s s' && text_eq t t') then some v else entry f' s' t' m)
  entry-put f s t f' s' t' v m = elim (Bool-cases (text_eq f f')) [
    | inl same ↦
        rw (← (text_eq_iff f f').0 same, text_eq_refl, entry-or_nil f s' t' m)
          (unfold entry put in
            rw lookup-insert_self (inner_entry-inner_put s t s' t' v (or_nil (lookup f m))))
    | inr other ↦ unfold entry put in rw (lookup-insert, other)
  ]

  pub lookup-put :
      (f s t f' : Text) (v : V) (m : Nested V)
      → lookup f' (put f s t v m) ≡ (
          if text_eq f f'
          then some (
              insert s (insert t v (or_nil (lookup s (or_nil (lookup f m))))) (or_nil (lookup f m)))
          else lookup f' m)
  unfolding put
  lookup-put f s t f' v m = lookup-insert f f' (inner_put s t v (or_nil (lookup f m))) m
