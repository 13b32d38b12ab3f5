-- ===== src/Controller/Shelves.antt =====
-- A concrete cluster, a list of objects of each kind, the newest first. The theorems' examples run on
-- it.
use flow_pipe.Prelude.{
  ◌≡◌, ◌≢◌, refl, subst, ◌∙◌, ap, ◌⊎◌, inl, inr, Bool, ◌&&◌, Option, none, some, List, [], ◌∷◌,
  arith, if◌then◌else◌,
}
use flow_pipe.Text.{Text, text_eq, text_eq_iff, text_eq_refl}
use flow_pipe.Dict.{Dict}
use flow_pipe.Controller.Kube.{
  Kube, Kind, config_map, deployment, daemon_set, job, cron_job, Body, Object, Apart,
  DeploymentSpec, DaemonSetSpec, JobSpec, CronJobSpec,
}

module _ {A : Type 0} where
  abbrev is_at : Object A → Text → Text → Bool
  is_at o ns n = text_eq o.namespace ns && text_eq o.name n

  unfoldable pub look : List (Object A) → Text → Text → Option (Object A)
  look [] ns n = none
  look (o ∷ os) ns n = if is_at o ns n then some o else look os ns n

  unfoldable pub drop_at : Text → Text → List (Object A) → List (Object A)
  drop_at ns n [] = []
  drop_at ns n (o ∷ os) = let rest = drop_at ns n os in if is_at o ns n then rest else o ∷ rest

  pub look-named :
      (os : List (Object A)) (ns n : Text) (o : Object A)
      → look os ns n ≡ some o
      → (o.namespace ≡ ns) × (o.name ≡ n)
  unfolding look
  look-named [] ns n o e = ground arith
  look-named (p ∷ os) ns n o e =
      ground (arith, look-named os ns n o, text_eq_iff p.namespace ns, text_eq_iff p.name n)

  pub look-push : (o : Object A) (os : List (Object A)) → look (o ∷ os) o.namespace o.name ≡ some o
  unfolding look
  look-push o os = ground (arith, text_eq_refl o.namespace, text_eq_refl o.name)

  pub look-push_apart :
      (o : Object A) (os : List (Object A)) (ns n : Text)
      → (o.namespace ≢ ns) ⊎ (o.name ≢ n)
      → look (o ∷ os) ns n ≡ look os ns n
  unfolding look
  look-push_apart o os ns n (inl d) =
      ground (arith, text_eq_iff o.namespace ns, text_eq_iff o.name n)
  look-push_apart o os ns n (inr d) =
      ground (arith, text_eq_iff o.namespace ns, text_eq_iff o.name n)

  pub look-drop_at : (ns n : Text) (os : List (Object A)) → look (drop_at ns n os) ns n ≡ none
  unfolding look drop_at
  look-drop_at ns n [] = refl
  look-drop_at ns n (o ∷ os) = ground (arith, look-drop_at ns n os)

  pub look-drop_at_apart :
      (ns n : Text) (os : List (Object A)) (ms m : Text)
      → (ns ≢ ms) ⊎ (n ≢ m)
      → look (drop_at ns n os) ms m ≡ look os ms m
  unfolding look drop_at
  look-drop_at_apart ns n [] ms m d = refl
  look-drop_at_apart ns n (o ∷ os) ms m (inl d) = ground (
    arith,
    look-drop_at_apart ns n os ms m (inl d),
    text_eq_iff o.namespace ns,
    text_eq_iff o.namespace ms,
  )
  look-drop_at_apart ns n (o ∷ os) ms m (inr d) =
      ground
        (arith, look-drop_at_apart ns n os ms m (inr d), text_eq_iff o.name n, text_eq_iff o.name m)

pub record Shelves : Type 0 where
  pub config_maps : List (Object Dict)
  pub deployments : List (Object DeploymentSpec)
  pub daemon_sets : List (Object DaemonSetSpec)
  pub jobs : List (Object JobSpec)
  pub cron_jobs : List (Object CronJobSpec)

abbrev pub empty : Shelves
empty = record { config_maps = []; deployments = []; daemon_sets = []; jobs = []; cron_jobs = [] }

abbrev shelf : Shelves → (k : Kind) → List (Object (Body k))
shelf c config_map = c.config_maps
shelf c deployment = c.deployments
shelf c daemon_set = c.daemon_sets
shelf c job = c.jobs
shelf c cron_job = c.cron_jobs

abbrev change : (k : Kind) → (List (Object (Body k)) → List (Object (Body k))) → Shelves → Shelves
change config_map f c = record c { config_maps = f c.config_maps }
change deployment f c = record c { deployments = f c.deployments }
change daemon_set f c = record c { daemon_sets = f c.daemon_sets }
change job f c = record c { jobs = f c.jobs }
change cron_job f c = record c { cron_jobs = f c.cron_jobs }

pub shelf-change :
    (k : Kind) (f : List (Object (Body k)) → List (Object (Body k))) (c : Shelves)
    → shelf (change k f c) k ≡ f (shelf c k)
shelf-change config_map f c = refl
shelf-change deployment f c = refl
shelf-change daemon_set f c = refl
shelf-change job f c = refl
shelf-change cron_job f c = refl

-- Another kind is another shelf.
shelf-change_other :
    (k : Kind) (f : List (Object (Body k)) → List (Object (Body k))) (c : Shelves) (j : Kind)
    → (k ≡ j) ⊎ (shelf (change k f c) j ≡ shelf c j)
shelf-change_other config_map f c config_map = inl refl
shelf-change_other config_map f c deployment = inr refl
shelf-change_other config_map f c daemon_set = inr refl
shelf-change_other config_map f c job = inr refl
shelf-change_other config_map f c cron_job = inr refl
shelf-change_other deployment f c config_map = inr refl
shelf-change_other deployment f c deployment = inl refl
shelf-change_other deployment f c daemon_set = inr refl
shelf-change_other deployment f c job = inr refl
shelf-change_other deployment f c cron_job = inr refl
shelf-change_other daemon_set f c config_map = inr refl
shelf-change_other daemon_set f c deployment = inr refl
shelf-change_other daemon_set f c daemon_set = inl refl
shelf-change_other daemon_set f c job = inr refl
shelf-change_other daemon_set f c cron_job = inr refl
shelf-change_other job f c config_map = inr refl
shelf-change_other job f c deployment = inr refl
shelf-change_other job f c daemon_set = inr refl
shelf-change_other job f c job = inl refl
shelf-change_other job f c cron_job = inr refl
shelf-change_other cron_job f c config_map = inr refl
shelf-change_other cron_job f c deployment = inr refl
shelf-change_other cron_job f c daemon_set = inr refl
shelf-change_other cron_job f c job = inr refl
shelf-change_other cron_job f c cron_job = inl refl

abbrev find_object : Shelves → (k : Kind) → Text → Text → Option (Object (Body k))
find_object c k ns n = look (shelf c k) ns n

pub find-change :
    (k : Kind) (f : List (Object (Body k)) → List (Object (Body k))) (c : Shelves) (ns n : Text)
    (j : Kind) (ms m : Text)
    → ((os : List (Object (Body k))) → (ns ≢ ms) ⊎ (n ≢ m) → look (f os) ms m ≡ look os ms m)
    → Apart k ns n j ms m
    → find_object (change k f c) j ms m ≡ find_object c j ms m
find-change k f c ns n j ms m h (inl d) = elim (shelf-change_other k f c j) [
  | inl e ↦ absurd (d e)
  | inr e ↦ ap (λ os. look os ms m) e
]
find-change k f c ns n j ms m h (inr d) = elim (shelf-change_other k f c j) [
  | inl e ↦
      subst (λ j. find_object (change k f c) j ms m ≡ find_object c j ms m) e
        (ap (λ os. look os ms m) (shelf-change k f c) ∙ h (shelf c k) d)
  | inr e ↦ ap (λ os. look os ms m) e
]

abbrev pub shelves : Kube
shelves = record {
  Cluster = Shelves;
  find = find_object;
  put = λ k o c. change k (λ os. o ∷ os) c;
  remove = λ k ns n c. change k (drop_at ns n) c;
  find-name = λ c k ns n o e. look-named (shelf c k) ns n o e;
  find-put = λ k o c.
      ap (λ os. look os o.namespace o.name) (shelf-change k (λ os. o ∷ os) c)
      ∙ look-push o (shelf c k);
  find-put_apart = λ k o c j ns n a.
      find-change k (λ os. o ∷ os) c o.namespace o.name j ns n (λ os d. look-push_apart o os ns n d)
        a;
  find-remove = λ k ns n c.
      ap (λ os. look os ns n) (shelf-change k (drop_at ns n) c) ∙ look-drop_at ns n (shelf c k);
  find-remove_apart = λ k ns n c j ms m a.
      find-change k (drop_at ns n) c ns n j ms m (λ os d. look-drop_at_apart ns n os ms m d) a;
}
