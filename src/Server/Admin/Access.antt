-- ===== src/Server/Admin/Access.antt =====
-- Access to the routes of internal/server/admin_handler.go, and their limits.
use glsync.Base.{
  ℤ, pos, negsuc, atoi, ℕ, ◌≤◌, ◌<◌, Text, text, [], ◌∷◌, ◌++◌, Option, none, some, ◌≡◌, ◌≢◌, ◌↔◌,
  ◌⊎◌, refl, arith, ◌==◌, ==_iff, Bool-cases, Option-cases, inl, inr, ap, ◌∙◌,
}
use glsync.Store.Run.{M, pure}
use glsync.Gitlab.Parser.{strip_prefix}
use glsync.Server.{Reply, error}
use glsync.Server.Admin.{bounded, read_limit, require_admin_token}

strip_prefix_lem : (p s rest : Text) → (strip_prefix p s ≡ some rest) ↔ (s ≡ p ++ rest)
unfolding strip_prefix
strip_prefix_lem [] s rest = (λ h. cc, λ h. cc)
strip_prefix_lem (c ∷ p) [] rest = (λ h. cc, λ h. cc)
strip_prefix_lem (c ∷ p) (d ∷ s) rest =
    (λ h. ground (arith, strip_prefix_lem p s rest), λ h. ground (arith, strip_prefix_lem p s rest))

-- The limit of a query is positive and at most the bound of its route, if the default is.
bounded-bounds :
    (default bound : ℕ) (o : Option ℤ)
    → 0 < default
    → default ≤ bound
    → (0 < bounded default bound o) × (bounded default bound o ≤ bound)
unfolding bounded
bounded-bounds default bound none h k = (h, k)
bounded-bounds default bound (some (negsuc n)) h k = (h, k)
bounded-bounds default bound (some (pos n)) h k = (ground arith, ground arith)

-- Whatever the query's text is, the limit of a route is positive and at most its bound, if its default is.
read_limit-bounds :
    (default bound : ℕ) (v : Text)
    → 0 < default
    → default ≤ bound
    → (0 < read_limit default bound v) × (read_limit default bound v ≤ bound)
unfolding read_limit
read_limit-bounds default bound v h k = elim (Bool-cases (v == text "")) [
  | inl e ↦ rw e (h, k)
  | inr e ↦ rw e (bounded-bounds default bound (atoi v) h k)
]

-- A request passes to an admin route if a token is configured and the header is "Bearer " and the
-- token. Otherwise it is answered with 404 where no token is configured, else with 401, and nothing is run.
pub require_admin_token_lem :
    (token auth : Text) (next : M Reply)
    → ((token ≢ [])
        × (auth ≡ text "Bearer " ++ token)
        × (require_admin_token token auth next ≡ next))
      ⊎ (((token ≡ [])
            × (require_admin_token token auth next ≡ pure (error 404 (text "not found"))))
          ⊎ ((token ≢ [])
              × (auth ≢ text "Bearer " ++ token)
              × (require_admin_token token auth next ≡ pure (error 401 (text "unauthorized")))))
unfolding require_admin_token
require_admin_token_lem token auth next = elim (Bool-cases (token == [])) [
  | inl e ↦ inr (inl ((==_iff token []).0 e, rw e refl))
  | inr e ↦
      let some_token : token ≢ [] = λ x. ground (arith, ==_iff token []) in
      let parts = strip_prefix_lem (text "Bearer ") auth in
      elim (Option-cases (strip_prefix (text "Bearer ") auth)) [
        | inl n ↦ inr (inr (some_token, (λ x. let found = (parts token).1 x in cc), rw (e, n) refl))
        | inr (sent, s) ↦ elim (Bool-cases (sent == token)) [
          | inl f ↦ inl (
            some_token,
            (parts token).0 (s ∙ ap some ((==_iff sent token).0 f)),
            rw (e, s, f) refl,
          )
          | inr f ↦ inr (
              inr (
                some_token,
                (λ x. let found = (parts token).1 x in ground (arith, ==_iff sent token)),
                rw (e, s, f) refl,
              ))
        ]
      ]
]
