-- ===== src/Backend.antt =====
-- What the two stores over etcd share: the server, the encodings, the errors, and the single calls.
use flow_pipe.Prelude.{ℕ, Bool, Option, List}
use flow_pipe.Text.{Text}
use flow_pipe.Proto.{FlowSpec, FlowStatus, SchemaDefinition}
use flow_pipe.Remote.{Remote, request}
use flow_pipe.Etcd.{Etcd, Codec, Compare}

pub record Backend : Type 1 where
  pub etcd : Etcd
  pub specs : Codec FlowSpec
  pub statuses : Codec FlowStatus
  pub schemas : Codec SchemaDefinition

-- The errors of the stores; a message that names a flow or a version is a constructor with fields.
pub data StoreError : Type 0 where
  unavailable : StoreError
  name_required spec_is_nil status_is_nil : StoreError
  invalid_active_version : StoreError
  marshal_failed unmarshal_failed : StoreError
  modified_concurrently : Text → StoreError
  flow_not_found : Text → StoreError
  spec_missing : Text → ℕ → StoreError
  version_missing : ℕ → StoreError
  schema_is_nil schema_id_required schema_format_required schema_payload_required : StoreError
  schema_not_found : Text → StoreError
  schema_version_missing : Text → ℕ → StoreError

abbrev pub Store : Backend → Type 0 → Type 0
Store B A = Remote B.etcd.Server StoreError A

module _ (B : Backend) where
  -- cli.Get(ctx, key)
  unfoldable pub get_key : Text → Store B (Option Text)
  unfolding request
  get_key k = request (λ s. (B.etcd.get s k, s)) StoreError.unavailable

  -- cli.Get(ctx, prefix, clientv3.WithPrefix())
  unfoldable pub get_keys : Text → Store B (List (Text × Text))
  unfolding request
  get_keys p = request (λ s. (B.etcd.get_prefix s p, s)) StoreError.unavailable

  -- cli.Put(ctx, key, value)
  unfoldable pub put_key : Text → Text → Store B Unit
  unfolding request
  put_key k v = request (λ s. (tt, B.etcd.put k v s)) StoreError.unavailable

  -- cli.Delete(ctx, prefix, clientv3.WithPrefix())
  unfoldable pub delete_keys : Text → Store B Unit
  unfolding request
  delete_keys p = request (λ s. (tt, B.etcd.delete_prefix p s)) StoreError.unavailable

  -- txn.If(c).Then(puts).Commit()
  unfoldable pub commit : Compare → List (Text × Text) → Store B Bool
  unfolding request
  commit c puts = request (B.etcd.txn c puts) StoreError.unavailable
