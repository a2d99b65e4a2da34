-- ===== src/Gitlab/Signature.antt =====
-- internal/gitlab/signature.go. `ConstantTimeCompare` returns 1 exactly for equal contents.
use glsync.Base.{Text, Bool, ◌==◌}

-- Whether `ValidateToken` accepts the header's value.
unfoldable pub validate_token : Text → Text → Bool
validate_token token secret = token == secret
