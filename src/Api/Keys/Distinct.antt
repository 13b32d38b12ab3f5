-- ===== src/Api/Keys/Distinct.antt =====
-- When two keys of plain flow names are the same.
use flow_pipe.Prelude.{
  ℕ, ◌≡◌, ◌≢◌, ap, true, false, ◌&&◌, ◌∷◌, ◌<◌, arith, ◌==◌, [], Bool-cases, inl, inr,
}
use flow_pipe.Text.{Text, codes, text_eq, text_eq_cong, text_eq-false, text_eq_refl, text_eq→eq}
use flow_pipe.Text.Decimal.{format_uint, format_uint-injective, u64_limit}
use flow_pipe.Text.FilePath.Laws.{IsPlain}
use flow_pipe.Api.Keys.{active_key, version_spec_key, status_key}
use flow_pipe.Api.Keys.Layout.{
  active_key-IsKey, status_key-IsKey, version_spec_key-IsKey, same_segments, differ,
}

active≢status : codes "active" ≢ codes "status"
active≢status e = ground arith

module _ {m n : Text} (pm : IsPlain m) (pn : IsPlain n) where
  pub active-eq-active : text_eq (active_key m) (active_key n) ≡ text_eq m n
  active-eq-active = text_eq_cong _ _ m n (
    (λ e. let same = same_segments (active_key-IsKey pm) (active_key-IsKey pn) e in cc),
    (λ e. ap active_key e),
  )

  pub status-eq-status : text_eq (status_key m) (status_key n) ≡ text_eq m n
  status-eq-status = text_eq_cong _ _ m n (
    (λ e. let same = same_segments (status_key-IsKey pm) (status_key-IsKey pn) e in cc),
    (λ e. ap status_key e),
  )

  pub version-eq-active : (v : ℕ) → text_eq (version_spec_key m v) (active_key n) ≡ false
  version-eq-active v = differ (version_spec_key-IsKey pm v) (active_key-IsKey pn) (λ e. cc)

  pub active-eq-version : (v : ℕ) → text_eq (active_key m) (version_spec_key n v) ≡ false
  active-eq-version v = differ (active_key-IsKey pm) (version_spec_key-IsKey pn v) (λ e. cc)

  pub version-eq-status : (v : ℕ) → text_eq (version_spec_key m v) (status_key n) ≡ false
  version-eq-status v = differ (version_spec_key-IsKey pm v) (status_key-IsKey pn) (λ e. cc)

  pub status-eq-version : (v : ℕ) → text_eq (status_key m) (version_spec_key n v) ≡ false
  status-eq-version v = differ (status_key-IsKey pm) (version_spec_key-IsKey pn v) (λ e. cc)

  pub active-eq-status : text_eq (active_key m) (status_key n) ≡ false
  active-eq-status = differ (active_key-IsKey pm) (status_key-IsKey pn) (λ e. active≢status (cc))

  pub status-eq-active : text_eq (status_key m) (active_key n) ≡ false
  status-eq-active = differ (status_key-IsKey pm) (active_key-IsKey pn) (λ e. active≢status (cc))

  pub version-eq-version :
      (v u : ℕ)
      → v < u64_limit
      → u < u64_limit
      → text_eq (version_spec_key m v) (version_spec_key n u) ≡ (text_eq m n && v == u)
  version-eq-version v u bv bu = elim (Bool-cases (text_eq m n && v == u)) [
    | inl same ↦ rw same (equal (text_eq→eq m n (ground arith)) (ground arith))
    | inr other ↦ rw other (
        text_eq-false _ _ λ e.
          apart other (same_segments (version_spec_key-IsKey pm v) (version_spec_key-IsKey pn u) e))
  ]
    where
      equal : m ≡ n → v ≡ u → text_eq (version_spec_key m v) (version_spec_key n u) ≡ true
      equal e d = rw (e, d) (text_eq_refl (version_spec_key n u))

      apart :
          (text_eq m n && v == u) ≡ false
          → (m ∷ codes "versions" ∷ format_uint v ∷ codes "spec" ∷ [])
            ≡ (n ∷ codes "versions" ∷ format_uint u ∷ codes "spec" ∷ [])
          → ⊥
      apart other e = ground (arith, text_eq_refl m, format_uint-injective v u bv bu)
