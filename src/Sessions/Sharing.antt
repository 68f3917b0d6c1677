-- ===== src/Sessions/Sharing.antt =====
-- The table of the bindings under a change: what stays of its rows.
use allies_foundry.Base.{
  ℕ, ◌≡◌, refl, sym, subst, ◌∙◌, String, none, some, List, [], ◌∷◌, ◌++◌, ◌==◌, inl, inr,
  Bool-cases, find_first, update_where,
}
use allies_foundry.Models.{ConversationBinding}
use allies_foundry.Sessions.Bindings.{binding_clashes}

-- What a transaction does to the table: nothing, a session is replaced, or a binding is added that
-- clashes with none.
pub data Changed (bs cs : List ConversationBinding) : Type 0 where
  kept : cs ≡ bs → Changed bs cs
  replaced :
      (k : ℕ) (session : String)
      → cs
        ≡ update_where
            (λ x. x.profile_id == k)
            (λ x. record x { hermes_session_id = some session })
            bs
      → Changed bs cs
  added :
      (b : ConversationBinding)
      → find_first (binding_clashes b) bs ≡ none
      → cs ≡ bs ++ b ∷ []
      → Changed bs cs

-- The same profile and conversation, row by row, and more rows behind.
abbrev pub Extends : List ConversationBinding → List ConversationBinding → Type 0
Extends [] cs = Unit
Extends (x ∷ xs) [] = ⊥
Extends (x ∷ xs) (y ∷ ys) =
    (y.profile_id ≡ x.profile_id)
    × (y.cloud_conversation_ref ≡ x.cloud_conversation_ref)
    × Extends xs ys

pub Extends-refl : (xs : List ConversationBinding) → Extends xs xs
Extends-refl [] = tt
Extends-refl (x ∷ xs) = (refl, refl, Extends-refl xs)

pub Extends-trans :
    (xs ys zs : List ConversationBinding) → Extends xs ys → Extends ys zs → Extends xs zs
Extends-trans [] ys zs h k = tt
Extends-trans (x ∷ xs) [] zs h k = elim h [ ]
Extends-trans (x ∷ xs) (y ∷ ys) [] h k = elim k [ ]
Extends-trans (x ∷ xs) (y ∷ ys) (z ∷ zs) h k =
    (k.0 ∙ h.0, k.1 ∙ h.1, Extends-trans xs ys zs h.2 k.2)

Extends-append : (xs ys : List ConversationBinding) → Extends xs (xs ++ ys)
Extends-append [] ys = tt
Extends-append (x ∷ xs) ys = (refl, refl, Extends-append xs ys)

module _ (k : ℕ) (session : String) where
  abbrev renew : List ConversationBinding → List ConversationBinding
  renew = update_where (λ x. x.profile_id == k) (λ x. record x { hermes_session_id = some session })

  Extends-renew : (xs : List ConversationBinding) → Extends xs (renew xs)
  unfolding update_where
  Extends-renew [] = tt
  Extends-renew (x ∷ xs) = elim (Bool-cases (x.profile_id == k)) [
    | inl c ↦ rw c (refl, refl, Extends-renew xs)
    | inr c ↦ rw c (refl, refl, Extends-renew xs)
  ]

pub Changed-Extends : (bs cs : List ConversationBinding) → Changed bs cs → Extends bs cs
Changed-Extends bs cs (kept e) = subst (Extends bs) (sym e) (Extends-refl bs)
Changed-Extends bs cs (replaced k session e) =
    subst (Extends bs) (sym e) (Extends-renew k session bs)
Changed-Extends bs cs (added b free e) = subst (Extends bs) (sym e) (Extends-append bs (b ∷ []))
