-- ===== src/Store/Run.antt =====
-- Programs over the world, and how pgx runs a statement.
use glsync.Base.{ℕ, ◌+◌, Text, Option, none, some}
use glsync.Store.{
  Db, World, Env, Fault, delivered, refused, unacknowledged, unavailable, violation, Result, ok,
  err,
}

abbrev pub M {ℓ} : Type ℓ → Type ℓ
M A = World → A × World

abbrev pub pure {ℓ} : {A : Type ℓ} → A → M A
pure a w = (a, w)

infixl 5 ◌>>=◌ ◌>>◌
abbrev pub ◌>>=◌ {ℓ κ} : {A : Type ℓ} {B : Type κ} → M A → (A → M B) → M B
◌>>=◌ m f w = let (a, w') = m w in f a w'

abbrev pub ◌>>◌ {ℓ κ} : {A : Type ℓ} {B : Type κ} → M A → M B → M B
◌>>◌ m n w = n (m w).1

abbrev pub bump : World → World
bump w = record w { step = w.step + 1 }

-- A statement reads the server's clock; `none` is a violated constraint, which changes nothing.
abbrev pub Statement {ℓ} : Type ℓ → Type ℓ
Statement A = ℕ → Db → Option (A × Db)

abbrev pub answer {ℓ} : {A : Type ℓ} → World → Option (A × Db) → Result A × World
answer w none = (err violation, bump w)
answer w (some (a, db)) = (ok a, bump (record w { db = db }))

-- The statement took effect if it could, and its answer is lost.
abbrev pub lose {ℓ} : {A : Type ℓ} → World → Option (A × Db) → Result A × World
lose w none = (err unavailable, bump w)
lose w (some (a, db)) = (err unavailable, bump (record w { db = db }))

abbrev pub run {ℓ} : {A : Type ℓ} → Fault → Option (A × Db) → World → Result A × World
run delivered r w = answer w r
run refused r w = (err unavailable, bump w)
run unacknowledged r w = lose w r

module _ (env : Env) where
  -- `time.Now()`
  unfoldable pub time_now : M ℕ
  time_now w = (env.now w.step, bump w)

  -- `uuid.NewString()`
  unfoldable pub new_uuid : M Text
  new_uuid w = (env.uuid w.step, bump w)

  -- `pool.Exec`, `pool.Query`
  unfoldable pub exec {ℓ} : {A : Type ℓ} → Statement A → M (Result A)
  exec statement w = run (env.fault w.step) (statement (env.now w.step) w.db) w
