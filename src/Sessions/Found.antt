-- ===== src/Sessions/Found.antt =====
-- What the lookups of a session find.
use allies_foundry.Base.{
  ℕ, ◌≡◌, refl, sym, ap, String, true, ◌&&◌, Option, none, some, List, [], ◌∷◌, ◌==◌, opt_eq,
  text_eq_iff, arith, inl, inr, Bool-cases, find_first,
}
use allies_foundry.Models.{Store, Attempt, ConversationBinding}
use allies_foundry.Sessions.Bindings.{is_session, new_binding}
use allies_foundry.Sessions.Service.{SessionUpdate}

-- The tables that a session is looked up in.
pub record SameRows (s t : Store) : Type 0 where
  pub workspaces : t.workspaces ≡ s.workspaces
  pub profiles : t.profiles ≡ s.profiles
  pub executions : t.executions ≡ s.executions
  pub leases : t.leases ≡ s.leases
  pub attempts : t.attempts ≡ s.attempts

-- The attempt with its receipt.
abbrev pub with_receipt : SessionUpdate → Attempt → Attempt
with_receipt call a = record a {
  session_request_digest = some call.request_digest;
  session_lease_digest = some call.token_digest;
  session_receipt = some (record { session_id = some call.effective_session_id });
}

pub first_digest :
    (a b : Option ℕ) (c d : ℕ) → (opt_eq a (some c) && opt_eq b (some d)) ≡ true → a ≡ some c
first_digest a b c d h = ground arith

pub second_digest :
    (a b : Option ℕ) (c d : ℕ) → (opt_eq a (some c) && opt_eq b (some d)) ≡ true → b ≡ some d
second_digest a b c d h = ground arith

-- The binding that was found is that of the profile.
pub found_profile :
    (k : ℕ) (b : ConversationBinding) (bs : List ConversationBinding)
    → find_first (λ x. x.profile_id == k) bs ≡ some b
    → b.profile_id ≡ k
unfolding find_first
found_profile k b [] f = cc
found_profile k b (x ∷ xs) f = elim (Bool-cases (x.profile_id == k)) [
  | inl c ↦ ground (arith, c, f)
  | inr c ↦ found_profile k b xs (ground (arith, c, f))
]

pub session_of : (o : Option String) (s : String) → is_session o s ≡ true → o ≡ some s
session_of none s h = cc
session_of (some t) s h = ap some ((text_eq_iff t s).0 h)

pub binding_eq :
    (k : ℕ) (session : String) (b : ConversationBinding)
    → b.profile_id ≡ k
    → b.hermes_session_id ≡ some session
    → b ≡ new_binding k b.cloud_conversation_ref session
binding_eq k session b p q = rw (sym p, sym q) refl

pub bound_to :
    (k : ℕ) (session : String) (b : ConversationBinding) (bs : List ConversationBinding)
    → find_first (λ x. x.profile_id == k) bs ≡ some b
    → is_session b.hermes_session_id session ≡ true
    → b ≡ new_binding k b.cloud_conversation_ref session
bound_to k session b bs f c =
    binding_eq k session b (found_profile k b bs f) (session_of b.hermes_session_id session c)

pub rebound :
    (k : ℕ) (session : String) (b : ConversationBinding) (bs : List ConversationBinding)
    → find_first (λ x. x.profile_id == k) bs ≡ some b
    → ◌≡◌ {A = ConversationBinding}
        (record b { hermes_session_id = some session })
        (new_binding k b.cloud_conversation_ref session)
rebound k session b bs f =
    binding_eq k session (record b { hermes_session_id = some session }) (found_profile k b bs f)
      refl
