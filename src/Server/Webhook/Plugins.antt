-- ===== src/Server/Webhook/Plugins.antt =====
-- The loop of internal/server/webhook_handler.go over the plugins that handle events.
use mathlib.Core.List.{append-nil, append_assoc}
use glsync.Base.{
  ◌+◌, length, map, List, [], ◌∷◌, ◌++◌, ◌≡◌, refl, sym, ◌∙◌, arith, Bool-cases, inl, inr,
}
use glsync.Domain.{NormalizedEvent}
use glsync.Plugin.{EventHandler, Notice, event_notice}
use glsync.Store.{World}
use glsync.Server.Webhook.{run_handlers}

pub db-run_handlers :
    (hs : List EventHandler) (event : NormalizedEvent) (w : World)
    → (run_handlers hs event w).1.db ≡ w.db
unfolding run_handlers
db-run_handlers [] event w = refl
db-run_handlers (h ∷ hs) event w = elim (Bool-cases (h.succeeds w.step event)) [
  | inl e ↦ rw e (db-run_handlers hs event _)
  | inr e ↦ rw e (db-run_handlers hs event _)
]

pub step-run_handlers :
    (hs : List EventHandler) (event : NormalizedEvent) (w : World)
    → (run_handlers hs event w).1.step ≡ w.step + length hs
unfolding run_handlers
step-run_handlers [] event w = omega arith
step-run_handlers (h ∷ hs) event w =
    let rest = step-run_handlers hs event in
    elim (Bool-cases (h.succeeds w.step event)) [
      | inl e ↦ rw e (omega (arith, rest _))
      | inr e ↦ rw e (omega (arith, rest _))
    ]

-- What the plugins are told of an event, in their order.
abbrev pub notices_of : List EventHandler → NormalizedEvent → List Notice
notices_of hs event = map (λ p. event_notice p.name event) hs

pub notices-run_handlers :
    (hs : List EventHandler) (event : NormalizedEvent) (w : World)
    → (run_handlers hs event w).1.notices ≡ w.notices ++ notices_of hs event
unfolding run_handlers
notices-run_handlers [] event w = sym (append-nil _)
notices-run_handlers (h ∷ hs) event w =
    let rest = notices-run_handlers hs event in
    let assoc = append_assoc w.notices (event_notice h.name event ∷ []) (notices_of hs event) in
    elim (Bool-cases (h.succeeds w.step event)) [
      | inl e ↦ rw e (rest _ ∙ assoc)
      | inr e ↦ rw e (rest _ ∙ assoc)
    ]
