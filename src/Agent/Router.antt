-- ===== src/Agent/Router.antt =====
-- crates/voice_server/src/agent/router.rs: the choice between the fast and the strong model.
use voice_ai.Base.{ℕ, length, ltb, if◌then◌else◌, Str, trim}
use voice_ai.Client.{ModelTier, fast, strong}

abbrev pub default_strong_min_chars : ℕ
default_strong_min_chars = 15

unfoldable pub route : Str → ModelTier
route input = if ltb (length (trim input)) default_strong_min_chars then fast else strong
