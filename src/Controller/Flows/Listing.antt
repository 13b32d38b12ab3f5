-- ===== src/Controller/Flows/Listing.antt =====
-- ListFlows finds every flow whose spec is there.
use flow_pipe.Prelude.{
  ℕ, ◌≡◌, refl, ap, ◌∙◌, true, false, Option, none, some, Bool-cases, Option-cases, ◌++◌, inl, inr,
  List, [], ◌∷◌, map, Elem, arith,
}
use flow_pipe.Text.{Text, codes, text_eq, text_eq→eq, has_prefix, has_suffix}
use flow_pipe.Text.FilePath.Laws.{IsPlain}
use flow_pipe.Proto.{FlowSpec, Flow}
use flow_pipe.Remote.{ok, World, quiet, value_or_none, attempt, pure, ◌>>=◌}
use flow_pipe.Remote.Reads.{Reads, Reads-request, Reads-lift, Reads-bind}
use flow_pipe.Backend.{Backend, get_key, get_keys}
use flow_pipe.Api.Keys.{root_prefix, active_key}
use flow_pipe.Api.Keys.Layout.{active_key-IsKey}
use flow_pipe.Controller.Flows.{
  put_flow, put_found, bare_flow, watched_name, fetch_listed, list_loop, list_flows,
  get_active_flow,
}
use flow_pipe.Controller.Flows.Watch.{watched_name-active_key, active_key-IsActive}

abbrev pub flow_name : Flow → Text
flow_name f = f.name

abbrev pub Listed : Text → List Flow → Type 0
Listed n flows = Elem n (map flow_name flows)

put_flow_self : (f : Flow) (flows : List Flow) → Listed f.name (put_flow f.name f flows)
unfolding put_flow
put_flow_self f [] = inl refl
put_flow_self f (g ∷ flows) = elim (Bool-cases (text_eq g.name f.name)) [
  | inl same ↦ rw same (inl refl)
  | inr other ↦ rw other (inr (put_flow_self f flows))
]

put_flow-Listed :
    (n : Text) (f : Flow) (flows : List Flow) → Listed n flows → Listed n (put_flow f.name f flows)
unfolding put_flow
put_flow-Listed n f [] h = elim h [ ]
put_flow-Listed n f (g ∷ flows) h = elim (Bool-cases (text_eq g.name f.name)) [
  | inl same ↦ rw same (replaced same h)
  | inr other ↦ rw other (kept (put_flow-Listed n f flows) h)
]
  where
    replaced : text_eq g.name f.name ≡ true → Listed n (g ∷ flows) → Listed n (f ∷ flows)
    replaced same (inl e) = inl (e ∙ text_eq→eq g.name f.name same)
    replaced same (inr h) = inr h

    kept :
        (Listed n flows → Listed n (put_flow f.name f flows))
        → Listed n (g ∷ flows)
        → Listed n (g ∷ put_flow f.name f flows)
    kept again (inl e) = inl e
    kept again (inr h) = inr (again h)

put_found-Listed :
    (n name : Text) (found : Option FlowSpec) (flows : List Flow)
    → Listed n flows
    → Listed n (put_found name found flows)
put_found-Listed n name none flows h = h
put_found-Listed n name (some spec) flows h = put_flow-Listed n (bare_flow name (some spec)) flows h

active_key-IsBelow :
    {n : Text} → IsPlain n → has_prefix (root_prefix ++ codes "/") (active_key n) ≡ true
unfolding has_prefix
active_key-IsBelow {n} pn = ap (has_prefix (root_prefix ++ codes "/")) (active_key-IsKey pn).spells

module _ (B : Backend) (s : B.etcd.Server) where
  fetch_listed-Reads : (name value : Text) → Reads (fetch_listed B name value)
  unfolding fetch_listed get_key
  fetch_listed-Reads name value = Reads-bind _ _ (Reads-lift _) λ version.
      Reads-bind _ _ (Reads-request _ _)
        λ stored. Reads-bind _ _ (Reads-lift _) (λ bytes. Reads-lift _)

  -- What the loop returns on a network without faults: it keeps the flows that it has, and finds those
  -- that can be fetched.
  pub record Lists (flows : List Flow) (kvs : List (Text × Text)) : Type 0 where
    pub result : List Flow
    pub runs : list_loop B flows kvs (quiet s) ≡ (ok result, quiet s)
    pub keeps : (n : Text) → Listed n flows → Listed n result
    pub finds :
        (n a : Text) (spec : FlowSpec)
        → IsPlain n
        → Elem (active_key n, a) kvs
        → (fetch_listed B n a (quiet s)).0 ≡ ok spec
        → Listed n result

  list_loop-visit :
      (flows : List Flow) (key value : Text) (kvs : List (Text × Text))
      → has_suffix (codes "/active") key ≡ true
      → list_loop B flows ((key, value) ∷ kvs) (quiet s)
        ≡ list_loop B
            (put_found
              (watched_name key)
              (value_or_none (fetch_listed B (watched_name key) value (quiet s)).0)
              flows)
            kvs
            (quiet s)
  unfolding list_loop ◌>>=◌ attempt
  list_loop-visit flows key value kvs active = rw active (
      ap
        (list_loop B
          (put_found (watched_name key)
            (value_or_none (fetch_listed B (watched_name key) value (quiet s)).0) flows)
          kvs)
        ((fetch_listed-Reads (watched_name key) value).calm s))

  list_loop-skip :
      (flows : List Flow) (key value : Text) (kvs : List (Text × Text))
      → has_suffix (codes "/active") key ≡ false
      → list_loop B flows ((key, value) ∷ kvs) (quiet s) ≡ list_loop B flows kvs (quiet s)
  unfolding list_loop
  list_loop-skip flows key value kvs other = rw other refl

  found-Listed :
      (n a key value : Text) (spec : FlowSpec) (flows : List Flow)
      → IsPlain n
      → ◌≡◌ {A = Text × Text} (active_key n, a) (key, value)
      → (fetch_listed B n a (quiet s)).0 ≡ ok spec
      → Listed n (
          put_found
            (watched_name key)
            (value_or_none (fetch_listed B (watched_name key) value (quiet s)).0)
            flows)
  found-Listed n a key value spec flows pn e fetched =
      let keys : key ≡ active_key n = cc in
      let values : value ≡ a = cc in
      rw (keys, values, watched_name-active_key pn, fetched)
        (put_flow_self (bare_flow n (some spec)) flows)

  list_loop-Lists : (flows : List Flow) (kvs : List (Text × Text)) → Lists flows kvs
  unfolding list_loop pure
  list_loop-Lists flows [] = record {
    result = flows;
    runs = refl;
    keeps = λ n h. h;
    finds = λ n a spec pn h. elim h [ ];
  }
  list_loop-Lists flows ((key, value) ∷ kvs) =
      elim (Bool-cases (has_suffix (codes "/active") key)) [
        | inl active ↦ visited active (
            list_loop-Lists
              (put_found (watched_name key)
                (value_or_none (fetch_listed B (watched_name key) value (quiet s)).0) flows)
              kvs)
        | inr other ↦ skipped other (list_loop-Lists flows kvs)
      ]
    where
      visited :
          has_suffix (codes "/active") key ≡ true
          → Lists
              (put_found
                (watched_name key)
                (value_or_none (fetch_listed B (watched_name key) value (quiet s)).0)
                flows)
              kvs
          → Lists flows ((key, value) ∷ kvs)
      visited active rest = record {
        result = rest.result;
        runs = list_loop-visit flows key value kvs active ∙ rest.runs;
        keeps = λ n h. rest.keeps n (
            put_found-Listed n (watched_name key)
              (value_or_none (fetch_listed B (watched_name key) value (quiet s)).0) flows h);
        finds = λ n a spec pn h fetched. elim h [
          | inl e ↦ rest.keeps n (found-Listed n a key value spec flows pn e fetched)
          | inr h ↦ rest.finds n a spec pn h fetched
        ];
      }

      skipped :
          has_suffix (codes "/active") key ≡ false
          → Lists flows kvs
          → Lists flows ((key, value) ∷ kvs)
      skipped other rest = record {
        result = rest.result;
        runs = list_loop-skip flows key value kvs other ∙ rest.runs;
        keeps = rest.keeps;
        finds = λ n a spec pn h fetched. elim h [
          | inl e ↦ let keys : key ≡ active_key n = cc in cc (other, active_key-IsActive pn, keys)
          | inr h ↦ rest.finds n a spec pn h fetched
        ];
      }

  -- A flow that GetActiveFlow finds has an active key, whose value leads to the spec.
  active_read :
      (n : Text) (spec : FlowSpec) (v : ℕ) (w : World B.etcd.Server)
      → get_active_flow B n (quiet s) ≡ (ok (some spec, v), w)
      → (a : Text) × (B.etcd.get s (active_key n) ≡ some a)
        × ((fetch_listed B n a (quiet s)).0 ≡ ok spec)
  unfolding get_active_flow fetch_listed get_key ◌>>=◌
  active_read n spec v w e = elim (Option-cases (B.etcd.get s (active_key n))) [
    | inl gone ↦ cc (ap (λ r. r.0) (rw gone at e))
    | inr (a, found) ↦ let read = ap (λ r. r.0) (rw found at e) in (a, found, ground arith)
  ]

  -- ListFlows, with no network fault, returns a list in which every flow with a plain name stands that
  -- GetActiveFlow finds with a spec.
  pub list_flows-finds :
      (n : Text) (spec : FlowSpec) (v : ℕ) (w : World B.etcd.Server)
      → IsPlain n
      → get_active_flow B n (quiet s) ≡ (ok (some spec, v), w)
      → (flows : List Flow) × (list_flows B (quiet s) ≡ (ok flows, quiet s)) × Listed n flows
  unfolding list_flows get_keys ◌>>=◌
  list_flows-finds n spec v w pn e =
      let kvs = B.etcd.get_prefix s (root_prefix ++ codes "/") in
      let lists = list_loop-Lists [] kvs in
      let read = active_read n spec v w e in
      (
        lists.result,
        lists.runs,
        lists.finds n read.0 spec pn
            ((B.etcd.get_prefix-Elem s (root_prefix ++ codes "/") (active_key n) read.0).1
              (active_key-IsBelow pn, read.1))
            read.2,
      )
