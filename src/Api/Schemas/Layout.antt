-- ===== src/Api/Schemas/Layout.antt =====
-- The keys of plain schema identifiers: what they spell, and that distinct keys differ.
use flow_pipe.Prelude.{
  ℕ, ◌≡◌, ◌≢◌, refl, ap, sym, ◌∙◌, false, List, [], ◌∷◌, ◌++◌, All, ◌<◌, ◌⊎◌, inl, inr,
}
use flow_pipe.Text.{Text, codes, text_eq, text_eq-false}
use flow_pipe.Text.Decimal.{format_uint, format_uint-injective, u64_limit}
use flow_pipe.Text.FilePath.{path_of, path_join}
use flow_pipe.Text.FilePath.Laws.{
  IsPlain, is_plain, is_plain-IsPlain, path_join-path_of, path_of-injective, All-NoSlash,
}
use flow_pipe.Api.Keys.Layout.{format_uint-IsPlain}
use flow_pipe.Api.Schemas.{
  schema_prefix, schema_active_key, schema_version_key, schema_versions_prefix,
}

-- The path `k` is the segments `ss`, each of them plain.
pub record IsPath (k : Text) (ss : List Text) : Type 0 where
  pub spells : k ≡ path_of ss
  pub plain : All IsPlain ss

module _ {j k : Text} {ss ts : List Text} (js : IsPath j ss) (kt : IsPath k ts) where
  same_path : j ≡ k → ss ≡ ts
  same_path e =
      path_of-injective ss ts (All-NoSlash ss js.plain) (All-NoSlash ts kt.plain)
        (sym js.spells ∙ e ∙ kt.spells)

  pub other_path : ss ≢ ts → text_eq j k ≡ false
  other_path h = text_eq-false j k (λ e. h (same_path e))

abbrev pub under_schemas : List Text → List Text
under_schemas ss = codes "flowpipe" ∷ codes "schemas" ∷ ss

schema_words-IsPlain :
    All IsPlain (codes "flowpipe" ∷ codes "schemas" ∷ codes "active" ∷ codes "versions" ∷ [])
unfolding is_plain
schema_words-IsPlain = (
  is_plain-IsPlain (codes "flowpipe") refl,
  (
    is_plain-IsPlain (codes "schemas") refl,
    (is_plain-IsPlain (codes "active") refl, (is_plain-IsPlain (codes "versions") refl, tt)),
  ),
)

under_schemas-IsPlain : (ss : List Text) → All IsPlain ss → All IsPlain (under_schemas ss)
under_schemas-IsPlain ss h = (schema_words-IsPlain.0, (schema_words-IsPlain.1.0, h))

module _ {m : Text} (pm : IsPlain m) where
  pub schema_prefix-IsPath : IsPath (schema_prefix m) (under_schemas (m ∷ []))
  unfolding schema_prefix
  schema_prefix-IsPath = record {
    spells =
        path_join-path_of (codes "flowpipe") (codes "schemas" ∷ []) (m ∷ [])
          (under_schemas-IsPlain [] tt) (pm, tt);
    plain = under_schemas-IsPlain (m ∷ []) (pm, tt);
  }

  joined-IsPath :
      (es : List Text)
      → All IsPlain es
      → IsPath (path_join (schema_prefix m ∷ es)) (under_schemas (m ∷ es))
  joined-IsPath es h = record {
    spells =
        ap (λ p. path_join (p ∷ es)) schema_prefix-IsPath.spells
        ∙ path_join-path_of (codes "flowpipe") (codes "schemas" ∷ m ∷ []) es
            schema_prefix-IsPath.plain h;
    plain = under_schemas-IsPlain (m ∷ es) (pm, h);
  }

  pub schema_active_key-IsPath :
      IsPath (schema_active_key m) (under_schemas (m ∷ codes "active" ∷ []))
  unfolding schema_active_key
  schema_active_key-IsPath = joined-IsPath (codes "active" ∷ []) (schema_words-IsPlain.1.1.0, tt)

  pub schema_version_key-IsPath :
      (v : ℕ)
      → IsPath (schema_version_key m v) (under_schemas (m ∷ codes "versions" ∷ format_uint v ∷ []))
  unfolding schema_version_key
  schema_version_key-IsPath v =
      joined-IsPath (codes "versions" ∷ format_uint v ∷ [])
        (schema_words-IsPlain.1.1.1.0, (format_uint-IsPlain v, tt))

  pub schema_versions_prefix-spells :
      schema_versions_prefix m ≡ path_of (under_schemas (m ∷ codes "versions" ∷ [])) ++ codes "/"
  unfolding schema_versions_prefix
  schema_versions_prefix-spells =
      ap (λ p. p ++ codes "/")
        (joined-IsPath (codes "versions" ∷ []) (schema_words-IsPlain.1.1.1.0, tt)).spells

module _ {m n : Text} (pm : IsPlain m) (pn : IsPlain n) where
  pub active-eq-version : (v : ℕ) → text_eq (schema_active_key m) (schema_version_key n v) ≡ false
  active-eq-version v =
      other_path (schema_active_key-IsPath pm) (schema_version_key-IsPath pn v) (λ e. cc)

  pub version-eq-active : (v : ℕ) → text_eq (schema_version_key m v) (schema_active_key n) ≡ false
  version-eq-active v =
      other_path (schema_version_key-IsPath pm v) (schema_active_key-IsPath pn) (λ e. cc)

  pub version-eq-version :
      (v u : ℕ)
      → v < u64_limit
      → u < u64_limit
      → (m ≢ n) ⊎ (v ≢ u)
      → text_eq (schema_version_key m v) (schema_version_key n u) ≡ false
  version-eq-version v u bv bu apart =
      other_path (schema_version_key-IsPath pm v) (schema_version_key-IsPath pn u)
        (λ e. elim apart [ inl h ↦ h (cc) | inr h ↦ h (format_uint-injective v u bv bu (cc)) ])
