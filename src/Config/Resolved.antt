-- ===== src/Config/Resolved.antt =====
-- crates/voice_server/src/config.rs: what a section and the provider make together.
use voice_ai.Base.{
  ◌≡◌, refl, ◌∙◌, Option, none, [], ◌∷◌, Str, str_eq, ◌is◌, lookup, insert, lookup-insert,
  Bool-cases, inl, inr, unwrap_or, or_else, subst,
}
use voice_ai.Config.{Headers, Connection, ProviderConfig, default_provider, insert_all, resolved}

-- No name stands twice, as in a map.
abbrev pub HasNamesOnce : Headers → Type 0
HasNamesOnce [] = Unit
HasNamesOnce ((k, v) ∷ h) = (lookup k h ≡ none) × HasNamesOnce h

lookup-insert_all :
    (k : Str) (own h : Headers)
    → HasNamesOnce own
    → lookup k (insert_all own h) ≡ or_else (lookup k own) (lookup k h)
unfolding lookup
lookup-insert_all k [] h once = refl
lookup-insert_all k ((j, v) ∷ own) h (absent, once) = elim (Bool-cases (j is k)) [
  | inl same ↦
      let gone : lookup k own ≡ none =
        subst (λ i. lookup i own ≡ none) ((str_eq.beq_iff j k).0 same) absent in
      lookup-insert_all k own (insert j v h) once ∙ rw (gone, lookup-insert j k v h, same) refl
  | inr apart ↦ lookup-insert_all k own (insert j v h) once ∙ rw (lookup-insert j k v h, apart) refl
]

-- A header of the resolved connection is that of the section, or that of the provider where the section,
-- which has no name twice, does not have it.
pub resolved-headers :
    (c : Connection) (provider : Option ProviderConfig) (k : Str)
    → HasNamesOnce c.headers
    → lookup k (resolved c provider).headers
      ≡ or_else (lookup k c.headers) (lookup k (unwrap_or provider default_provider).headers)
unfolding resolved
resolved-headers c provider k =
    lookup-insert_all k c.headers (unwrap_or provider default_provider).headers
