-- ===== src/Query/Parsing.antt =====
-- The modifiers of a query, which are separated by commas.
use dballe.Prelude.{
  ℕ, ◌≡◌, refl, sym, ◌∙◌, ◌==◌, List, [], ◌∷◌, ◌++◌, Result, ok, err, ◌>>=◌, Bool-cases, inl, inr,
}
use dballe.Query.{Modifiers, no_modifiers, add_modifier, parse_tokens, parse_modifiers}

>>=_assoc {ℓ} :
    {A : Type ℓ} (m : Result A) (f g : A → Result A) → ((m >>= f) >>= g) ≡ (m >>= λ a. f a >>= g)
>>=_assoc (ok a) f g = refl
>>=_assoc (err e) f g = refl

>>=-eq {ℓ} :
    {A : Type ℓ} (m : Result A) (f g : A → Result A) → ((a : A) → f a ≡ g a) → (m >>= f) ≡ (m >>= g)
>>=-eq (ok a) f g h = h a
>>=-eq (err e) f g h = refl

parse_tokens-append :
    (token s t : List ℕ) (m : Modifiers)
    → parse_tokens token (s ++ 44 ∷ t) m ≡ (parse_tokens token s m >>= λ m'. parse_tokens [] t m')
unfolding parse_tokens
parse_tokens-append token [] t m = refl
parse_tokens-append token (c ∷ s) t m = elim (Bool-cases (c == 44)) [
  | inl h ↦ rw h (
      >>=-eq (add_modifier token m) _ _ (λ m'. parse_tokens-append [] s t m')
      ∙ sym (>>=_assoc (add_modifier token m) _ _))
  | inr h ↦ rw h (parse_tokens-append (token ++ c ∷ []) s t m)
]

-- The modifiers of two lists joined by a comma are those of the first with those of the second
-- added, and an unknown modifier in either list is an error.
pub parse_modifiers-append :
    (s t : List ℕ)
    → parse_modifiers (s ++ 44 ∷ t) ≡ (parse_modifiers s >>= λ m. parse_tokens [] t m)
unfolding parse_modifiers
parse_modifiers-append s t = parse_tokens-append [] s t no_modifiers
