-- ===== src/Gateway/Auth.antt =====
-- Who gets past `APIKeyAuth`.
use sheeld.Prelude.{
  ◌≡◌, ◌↔◌, refl, ap, ◌∙◌, true, Bool-cases, Option-cases, inl, inr, Str, String, some,
}
use sheeld.BackendConfig.{Store, AuthInfo, loaded, lookup_api_key}
use sheeld.Gateway.{granted, api_key_auth, bearer_token}

granted_inj : (a b : AuthInfo) → granted a ≡ granted b → a ≡ b
granted_inj a b h = cc

-- A request is let through, as the key's organization, exactly when a configuration is loaded and
-- the header bears a key whose hash that configuration lists with that information.
api_key_auth_iff :
    (hash : Str → String) (store : Store) (header : Str) (info : AuthInfo)
    → (api_key_auth hash store header ≡ granted info) ↔ (
        (key : Str) × (loaded store ≡ true)
        × (bearer_token header ≡ some key)
        × (lookup_api_key hash store key ≡ some info))
unfolding api_key_auth
api_key_auth_iff hash store header info = (
  λ h. elim (Bool-cases (loaded store)) [
    | inr l ↦ absurd (cc (rw l at h))
    | inl l ↦ elim (Option-cases (bearer_token header)) [
      | inl b ↦ absurd (cc (rw (l, b) at h))
      | inr (key, b) ↦ elim (Option-cases (lookup_api_key hash store key)) [
        | inl k ↦ absurd (cc (rw (l, b, k) at h))
        | inr (found, k) ↦ (key, l, b, k ∙ ap some (granted_inj found info (rw (l, b, k) at h)))
      ]
    ]
  ],
  λ (key, l, b, k). rw (l, b, k) refl,
)
