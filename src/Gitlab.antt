-- ===== src/Gitlab.antt =====
-- internal/gitlab: webhook payloads, issue keys and the webhook token.
pub mod Types
pub mod Parser
pub mod IssueKey
pub mod Signature
