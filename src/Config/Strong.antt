-- ===== src/Config/Strong.antt =====
-- crates/voice_server/src/config.rs: which variables of the environment touch which sections.
use voice_ai.Base.{
  ◌≡◌, refl, sym, ap, ◌∙◌, fun_ext, Bool, false, none, codes, Str, Bool-cases, inl, inr,
  if◌then◌else◌, starts_with,
}
use voice_ai.Config.{Parsers, VoiceConfig}
use voice_ai.Config.Env.{
  Environment, unset, apply_log_env, apply_server_env, apply_redis_env, apply_agent_env,
  apply_section_env, apply_section_env_llm, apply_section_env_tts, apply_env_overrides,
}

abbrev pub is_of_strong : Str → Bool
is_of_strong name = starts_with (codes "VOICE_LLM_STRONG_") name

abbrev pub without_strong : Environment → Environment
without_strong env name = if is_of_strong name then unset else env name

module _ (ps : Parsers) where
  -- All sections but `llm_strong`.
  abbrev pub rest_of : VoiceConfig ps → VoiceConfig ps
  rest_of c = record c { llm_strong = none }

  rest_without :
      (env : Environment) (c : VoiceConfig ps)
      → rest_of (apply_env_overrides ps env c)
        ≡ rest_of (apply_env_overrides ps (without_strong env) c)
  unfolding apply_env_overrides apply_log_env apply_server_env apply_section_env
      apply_section_env_llm apply_section_env_tts apply_redis_env apply_agent_env
  rest_without env c = refl

  -- Environments that give the same text for each name which does not begin with `VOICE_LLM_STRONG_`
  -- leave the same configuration, but for the section of the strong model.
  pub strong_variables-apart :
      (env env' : Environment) (c : VoiceConfig ps)
      → ((name : Str) → is_of_strong name ≡ false → env name ≡ env' name)
      → rest_of (apply_env_overrides ps env c) ≡ rest_of (apply_env_overrides ps env' c)
  strong_variables-apart env env' c agree =
      let without : without_strong env ≡ without_strong env' = fun_ext (λ name.
        elim (Bool-cases (is_of_strong name)) [
          | inl own ↦ rw own refl
          | inr other ↦ rw (other, agree name other) refl
        ]) in
      rest_without env c
      ∙ ap (λ e. rest_of (apply_env_overrides ps e c)) without
      ∙ sym (rest_without env' c)
