-- ===== src/Etcd/Table/Imaged.antt =====
-- A concrete encoding of the specs that have a name, a version and the settings of one image, always
-- the same. Any other spec fails to encode.
use flow_pipe.Prelude.{
  ℕ, ◌≡◌, Bool, true, false, ◌&&◌, Option, none, some, [], ◌∷◌, arith, if◌then◌else◌,
}
use flow_pipe.Text.{Text, codes, text_eq, text_eq→eq}
use flow_pipe.Proto.{FlowSpec, KubernetesSettings, ImagePullPolicy, RestartPolicy, named}
use flow_pipe.Etcd.{Codec}
use flow_pipe.Etcd.Table.Codecs.{is_nil, is_none}

abbrev image_settings : KubernetesSettings
image_settings = record {
  image = some (codes "img");
  image_pull_policy = ImagePullPolicy.always;
  restart_policy = RestartPolicy.never;
  resources = none;
}

abbrev pub imaged : Text → ℕ → FlowSpec
imaged n v = record (named n) { version = v; kubernetes = some image_settings }

abbrev is_image : Option Text → Bool
is_image none = false
is_image (some image) = text_eq image (codes "img")

abbrev is_always : ImagePullPolicy → Bool
is_always ImagePullPolicy.always = true
is_always policy = false

abbrev is_never : RestartPolicy → Bool
is_never RestartPolicy.never = true
is_never policy = false

abbrev is_settings : Option KubernetesSettings → Bool
is_settings none = false
is_settings (some k) =
    is_image k.image
    && is_always k.image_pull_policy
    && is_never k.restart_policy
    && is_none k.resources

abbrev is_imaged : FlowSpec → Bool
is_imaged s =
    is_none s.execution
    && is_nil s.stages
    && is_nil s.queues
    && is_nil s.labels
    && is_settings s.kubernetes
    && is_none s.kubernetes_options
    && is_nil s.env

unfoldable pub marshal_imaged : FlowSpec → Option Text
marshal_imaged s = if is_imaged s then some (s.version ∷ s.name) else none

unfoldable pub unmarshal_imaged : Text → Option FlowSpec
unmarshal_imaged [] = none
unmarshal_imaged (v ∷ n) = some (imaged n v)

is_image-eq : (image : Option Text) → is_image image ≡ true → image ≡ some (codes "img")
is_image-eq none h = ground arith
is_image-eq (some image) h = ground (arith, text_eq→eq image (codes "img"))

is_settings-eq : (k : Option KubernetesSettings) → is_settings k ≡ true → k ≡ some image_settings
is_settings-eq none h = ground arith
is_settings-eq (some k) h = ground (arith, is_image-eq k.image)

pub unmarshal-marshal_imaged :
    (s : FlowSpec) (b : Text) → marshal_imaged s ≡ some b → unmarshal_imaged b ≡ some s
unfolding marshal_imaged unmarshal_imaged
unmarshal-marshal_imaged s b h = ground (arith, is_settings-eq s.kubernetes)

abbrev pub imaged_codec : Codec FlowSpec
imaged_codec = record {
  marshal = marshal_imaged;
  unmarshal = unmarshal_imaged;
  unmarshal-marshal = unmarshal-marshal_imaged;
}
