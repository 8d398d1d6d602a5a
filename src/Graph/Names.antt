-- ===== src/Graph/Names.antt =====
-- The names of the enumerations of src/graph_spec.cpp and the text form of ports, with their parsers.
use ge.Prelude.{
  ◌≡◌, ◌↔◌, refl, ap, ◌∙◌, true, false, not, ◌||◌, Option, none, some, [], ◌∷◌, ◌++◌, if◌then◌else◌,
  Text, codes, text_eq, text_eq_iff, split_first, contains, split_first-append, split_first_lem,
  Option-cases, arith, Bool-cases, inl, inr,
}
use mathlib.Core.List.{append_assoc}
use ge.Edge.{DropPolicy, block, drop_oldest, drop_newest}
use ge.Graph.{
  ExecutorKind, auto, cpu, gpu, SyncPolicy, aligned, latest, any, RemovePolicy, drain, fast,
  RemoveMode, disconnect, bypass, PortRef, is_valid_stable_id, is_empty, port_to_text,
  port_of_parts, parse_port,
}

unfoldable pub executor_name : ExecutorKind → Text
executor_name auto = codes "auto"
executor_name cpu = codes "cpu"
executor_name gpu = codes "gpu"

unfoldable pub drop_name : DropPolicy → Text
drop_name block = codes "block"
drop_name drop_oldest = codes "drop_oldest"
drop_name drop_newest = codes "drop_newest"

unfoldable pub sync_name : SyncPolicy → Text
sync_name aligned = codes "aligned"
sync_name latest = codes "latest"
sync_name any = codes "any"

unfoldable pub remove_policy_name : RemovePolicy → Text
remove_policy_name drain = codes "drain"
remove_policy_name fast = codes "fast"

unfoldable pub remove_mode_name : RemoveMode → Text
remove_mode_name disconnect = codes "disconnect"
remove_mode_name bypass = codes "bypass"

unfoldable pub parse_executor : Text → Option ExecutorKind
parse_executor s =
    if text_eq s (codes "auto")
    then some auto
    else if text_eq s (codes "cpu")
    then some cpu
    else if text_eq s (codes "gpu")
    then some gpu
    else none

unfoldable pub parse_drop : Text → Option DropPolicy
parse_drop s =
    if text_eq s (codes "block")
    then some block
    else if text_eq s (codes "drop_oldest")
    then some drop_oldest
    else if text_eq s (codes "drop_newest")
    then some drop_newest
    else none

unfoldable pub parse_sync : Text → Option SyncPolicy
parse_sync s =
    if text_eq s (codes "aligned")
    then some aligned
    else if text_eq s (codes "latest")
    then some latest
    else if text_eq s (codes "any")
    then some any
    else none

unfoldable pub parse_remove_policy : Text → Option RemovePolicy
parse_remove_policy s =
    if text_eq s (codes "drain")
    then some drain
    else if text_eq s (codes "fast")
    then some fast
    else none

unfoldable pub parse_remove_mode : Text → Option RemoveMode
parse_remove_mode s =
    if text_eq s (codes "disconnect")
    then some disconnect
    else if text_eq s (codes "bypass")
    then some bypass
    else none

-- A parser accepts the name of a value, as that value, and no other text.
abbrev pub Names {ℓ} : {A : Type ℓ} → (A → Text) → (Text → Option A) → Type ℓ
Names {A} name parse = (s : Text) (a : A) → (parse s ≡ some a) ↔ (s ≡ name a)

parse-executor : (k : ExecutorKind) → parse_executor (executor_name k) ≡ some k
unfolding executor_name parse_executor text_eq
parse-executor auto = refl
parse-executor cpu = refl
parse-executor gpu = refl

executor_of-parse : (s : Text) (k : ExecutorKind) → parse_executor s ≡ some k → s ≡ executor_name k
unfolding executor_name parse_executor
executor_of-parse s k h =
    ground (
      arith,
      text_eq_iff s (codes "auto"),
      text_eq_iff s (codes "cpu"),
      text_eq_iff s (codes "gpu"),
    )

parse-drop : (k : DropPolicy) → parse_drop (drop_name k) ≡ some k
unfolding drop_name parse_drop text_eq
parse-drop block = refl
parse-drop drop_oldest = refl
parse-drop drop_newest = refl

drop_of-parse : (s : Text) (k : DropPolicy) → parse_drop s ≡ some k → s ≡ drop_name k
unfolding drop_name parse_drop
drop_of-parse s k h = ground (
  arith,
  text_eq_iff s (codes "block"),
  text_eq_iff s (codes "drop_oldest"),
  text_eq_iff s (codes "drop_newest"),
)

parse-sync : (k : SyncPolicy) → parse_sync (sync_name k) ≡ some k
unfolding sync_name parse_sync text_eq
parse-sync aligned = refl
parse-sync latest = refl
parse-sync any = refl

sync_of-parse : (s : Text) (k : SyncPolicy) → parse_sync s ≡ some k → s ≡ sync_name k
unfolding sync_name parse_sync
sync_of-parse s k h = ground (
  arith,
  text_eq_iff s (codes "aligned"),
  text_eq_iff s (codes "latest"),
  text_eq_iff s (codes "any"),
)

parse-remove_policy : (k : RemovePolicy) → parse_remove_policy (remove_policy_name k) ≡ some k
unfolding remove_policy_name parse_remove_policy text_eq
parse-remove_policy drain = refl
parse-remove_policy fast = refl

remove_policy_of-parse :
    (s : Text) (k : RemovePolicy) → parse_remove_policy s ≡ some k → s ≡ remove_policy_name k
unfolding remove_policy_name parse_remove_policy
remove_policy_of-parse s k h =
    ground (arith, text_eq_iff s (codes "drain"), text_eq_iff s (codes "fast"))

parse-remove_mode : (k : RemoveMode) → parse_remove_mode (remove_mode_name k) ≡ some k
unfolding remove_mode_name parse_remove_mode text_eq
parse-remove_mode disconnect = refl
parse-remove_mode bypass = refl

remove_mode_of-parse :
    (s : Text) (k : RemoveMode) → parse_remove_mode s ≡ some k → s ≡ remove_mode_name k
unfolding remove_mode_name parse_remove_mode
remove_mode_of-parse s k h =
    ground (arith, text_eq_iff s (codes "disconnect"), text_eq_iff s (codes "bypass"))

-- For each enumeration of the graph's file format: a text parses to a value exactly when it is the
-- value's name.
pub parse-name :
    Names executor_name parse_executor
    × Names drop_name parse_drop
    × Names sync_name parse_sync
    × Names remove_policy_name parse_remove_policy
    × Names remove_mode_name parse_remove_mode
parse-name = (
  λ s k. (executor_of-parse s k, λ e. ap parse_executor e ∙ parse-executor k),
  λ s k. (drop_of-parse s k, λ e. ap parse_drop e ∙ parse-drop k),
  λ s k. (sync_of-parse s k, λ e. ap parse_sync e ∙ parse-sync k),
  λ s k. (remove_policy_of-parse s k, λ e. ap parse_remove_policy e ∙ parse-remove_policy k),
  λ s k. (remove_mode_of-parse s k, λ e. ap parse_remove_mode e ∙ parse-remove_mode k),
)

valid_nonempty : (t : Text) → is_valid_stable_id t ≡ true → is_empty t ≡ false
unfolding is_valid_stable_id is_empty
valid_nonempty [] h = absurd (cc)
valid_nonempty (c ∷ rest) h = refl

parts_of_valid :
    (p : PortRef)
    → is_valid_stable_id p.node_id ≡ true
    → is_empty p.port ≡ false
    → port_of_parts (p.node_id, p.port) ≡ some p
unfolding port_of_parts
parts_of_valid p h e = ground (arith, valid_nonempty p.node_id, h, e)

port_of-parts :
    (a b : Text) (p : PortRef) → port_of_parts (a, b) ≡ some p → a ++ b'.' ∷ b ≡ port_to_text p
unfolding port_of_parts port_to_text
port_of-parts a b p h = elim (Bool-cases (is_empty a || is_empty b || not (is_valid_stable_id a))) [
  | inl bad ↦ absurd (ground (arith, bad, h))
  | inr good ↦
      let q : ◌≡◌ {A = PortRef} (record { node_id = a; port = b }) p = ground (arith, good, h) in
      ap port_to_text q
]

-- For a port with a valid node id that has no dot and a port name: a text parses to the port exactly
-- when it is the port's text.
pub parse_port-port_to_text :
    (t : Text) (p : PortRef)
    → is_valid_stable_id p.node_id ≡ true
    → contains b'.' p.node_id ≡ false
    → is_empty p.port ≡ false
    → (parse_port t ≡ some p) ↔ (t ≡ port_to_text p)
unfolding parse_port port_to_text
parse_port-port_to_text t p h n e = (
  λ q. elim (Option-cases (split_first b'.' t)) [
    | inl missing ↦ absurd (ground (arith, missing, q))
    | inr ((a, b), found) ↦
        let parts : port_of_parts (a, b) ≡ some p = ground (arith, found, q) in
        split_first_lem b'.' t a b found ∙ port_of-parts a b p parts
  ],
  λ q.
      ap parse_port q
      ∙ rw (split_first-append b'.' p.node_id p.port n, parse_port) (parts_of_valid p h e),
)

-- A node id with a dot is cut at it: the text of a port of the node `a.b`, where `a` is a valid id with
-- no dot, parses to a port of the node `a`.
pub parse_port_dotted :
    (a b port : Text)
    → is_valid_stable_id a ≡ true
    → contains b'.' a ≡ false
    → is_empty (b ++ b'.' ∷ port) ≡ false
    → parse_port (port_to_text (record { node_id = a ++ b'.' ∷ b; port = port }))
      ≡ some (record { node_id = a; port = b ++ b'.' ∷ port })
unfolding parse_port port_to_text
parse_port_dotted a b port h n e =
    rw
      (
        append_assoc a (b'.' ∷ b) (b'.' ∷ port),
        split_first-append b'.' a (b ++ b'.' ∷ port) n,
        parse_port,
      )
      (parts_of_valid (record { node_id = a; port = b ++ b'.' ∷ port }) h e)
