-- ===== src/Api/Keys/Layout.antt =====
-- The keys of plain flow names: what they spell, and that distinct keys differ.
use flow_pipe.Prelude.{ℕ, ◌≡◌, ◌≢◌, refl, ap, sym, ◌∙◌, false, List, [], ◌∷◌, arith, All}
use flow_pipe.Text.{Text, codes, text_eq, text_eq-false}
use flow_pipe.Text.Decimal.{format_uint, format_uint-ne-nil, IsDigits, format_uint-IsDigits}
use flow_pipe.Text.FilePath.{path_of, path_join}
use flow_pipe.Text.FilePath.Laws.{
  IsPlain, NoSlash, is_plain, is_plain-IsPlain, path_join-path_of, path_of-injective, All-NoSlash,
}
use flow_pipe.Api.Keys.{flow_prefix, active_key, version_spec_key, status_key}

digits-NoSlash : (s : Text) → IsDigits s → NoSlash s
digits-NoSlash [] h = tt
digits-NoSlash (c ∷ s) h = (ground arith, digits-NoSlash s h.1)

digits-IsPlain : (s : Text) → IsDigits s → s ≢ [] → IsPlain s
unfolding text_eq
digits-IsPlain [] h e = absurd (e refl)
digits-IsPlain (c ∷ s) h e = record {
  no_slash = digits-NoSlash (c ∷ s) h;
  nonempty = refl;
  not_dot = ground arith;
  not_dots = ground arith;
}

pub format_uint-IsPlain : (v : ℕ) → IsPlain (format_uint v)
format_uint-IsPlain v =
    digits-IsPlain (format_uint v) (format_uint-IsDigits v) (format_uint-ne-nil v)

-- The fixed segments are plain, by evaluation.
words-IsPlain : All IsPlain (
    codes "flowpipe"
    ∷ codes "flows"
    ∷ codes "active"
    ∷ codes "versions"
    ∷ codes "spec"
    ∷ codes "status"
    ∷ [])
unfolding is_plain
words-IsPlain = (
  is_plain-IsPlain (codes "flowpipe") refl,
  (
    is_plain-IsPlain (codes "flows") refl,
    (
      is_plain-IsPlain (codes "active") refl,
      (
        is_plain-IsPlain (codes "versions") refl,
        (is_plain-IsPlain (codes "spec") refl, (is_plain-IsPlain (codes "status") refl, tt)),
      ),
    ),
  ),
)

abbrev pub under_root : List Text → List Text
under_root ss = codes "flowpipe" ∷ codes "flows" ∷ ss

pub under_root-IsPlain : (ss : List Text) → All IsPlain ss → All IsPlain (under_root ss)
under_root-IsPlain ss h = (words-IsPlain.0, (words-IsPlain.1.0, h))

-- The key `k` is the root, and then the segments `ss`, each of them plain.
pub record IsKey (k : Text) (ss : List Text) : Type 0 where
  pub spells : k ≡ path_of (under_root ss)
  pub plain : All IsPlain ss

module _ {m : Text} (pm : IsPlain m) where
  pub flow_prefix-IsKey : IsKey (flow_prefix m) (m ∷ [])
  unfolding flow_prefix
  flow_prefix-IsKey = record {
    spells =
        path_join-path_of (codes "flowpipe") (codes "flows" ∷ []) (m ∷ [])
          (under_root-IsPlain [] tt) (pm, tt);
    plain = (pm, tt);
  }

  joined-IsKey : (es : List Text) → All IsPlain es → IsKey (path_join (flow_prefix m ∷ es)) (m ∷ es)
  joined-IsKey es h = record {
    spells =
        ap (λ p. path_join (p ∷ es)) flow_prefix-IsKey.spells
        ∙ path_join-path_of (codes "flowpipe") (codes "flows" ∷ m ∷ []) es
            (under_root-IsPlain (m ∷ []) (pm, tt)) h;
    plain = (pm, h);
  }

  pub active_key-IsKey : IsKey (active_key m) (m ∷ codes "active" ∷ [])
  unfolding active_key
  active_key-IsKey = joined-IsKey (codes "active" ∷ []) (words-IsPlain.1.1.0, tt)

  pub status_key-IsKey : IsKey (status_key m) (m ∷ codes "status" ∷ [])
  unfolding status_key
  status_key-IsKey = joined-IsKey (codes "status" ∷ []) (words-IsPlain.1.1.1.1.1.0, tt)

  pub version_spec_key-IsKey :
      (v : ℕ)
      → IsKey (version_spec_key m v) (m ∷ codes "versions" ∷ format_uint v ∷ codes "spec" ∷ [])
  unfolding version_spec_key
  version_spec_key-IsKey v =
      joined-IsKey (codes "versions" ∷ format_uint v ∷ codes "spec" ∷ [])
        (words-IsPlain.1.1.1.0, (format_uint-IsPlain v, (words-IsPlain.1.1.1.1.0, tt)))

module _ {j k : Text} {ss ts : List Text} (js : IsKey j ss) (kt : IsKey k ts) where
  under_root-injective : under_root ss ≡ under_root ts → ss ≡ ts
  under_root-injective e = cc

  -- Keys are the same exactly if their segments are.
  pub same_segments : j ≡ k → ss ≡ ts
  same_segments e = under_root-injective (
      path_of-injective (under_root ss) (under_root ts)
        (All-NoSlash (under_root ss) (under_root-IsPlain ss js.plain))
        (All-NoSlash (under_root ts) (under_root-IsPlain ts kt.plain))
        (sym js.spells ∙ e ∙ kt.spells))

  pub differ : ss ≢ ts → text_eq j k ≡ false
  differ h = text_eq-false j k (λ e. h (same_segments e))
