-- ===== src/HomeAssistant/Topics.antt =====
-- homeassistant/entity_types.go and homeassistant/entities.go: the discovery topics are different.
use boiler_mate.Prelude.{
  ◌≡◌, refl, true, false, not, Bool, inl, inr, Bool-cases, arith, List, [], ◌∷◌, ◌++◌, Bytes, codes,
  ◌==◌, bytes_eq, bytes_beq_iff, All, ◌&&◌, map,
}
use mathlib.Core.List.{append_cancel_left, append_cancel_right}
use boiler_mate.HomeAssistant.Config.{EntityType, EntityConfig, type_name, get_discovery_topic}
use boiler_mate.HomeAssistant.Entities.{all_entities}

type_name_cancel :
    (t t' : EntityType) (x y : Bytes)
    → type_name t ++ (b'/' ∷ x) ≡ type_name t' ++ (b'/' ∷ y)
    → (t ≡ t') × (x ≡ y)
unfolding type_name
type_name_cancel _ _ x y h = ground arith

abbrev none_is : Bytes → List Bytes → Bool
none_is k [] = true
none_is k (j ∷ js) = not (j == k) && none_is k js

-- No text stands twice in a list.
abbrev distinct : List Bytes → Bool
distinct [] = true
distinct (k ∷ ks) = none_is k ks && distinct ks

module _ {V : Type 0} where
  -- The discovery topics of two entities of one boiler are the same only for one type and key.
  pub get_discovery_topic-eq :
      (e e' : EntityConfig V) (serial : Bytes)
      → get_discovery_topic e serial ≡ get_discovery_topic e' serial
      → (e.entity_type ≡ e'.entity_type) × (e.key ≡ e'.key)
  unfolding get_discovery_topic
  get_discovery_topic-eq e e' serial h =
      let (types, rest) =
        type_name_cancel e.entity_type e'.entity_type
          (codes "nbe_" ++ (serial ++ (b'/' ∷ (e.key ++ codes "/config"))))
          (codes "nbe_" ++ (serial ++ (b'/' ∷ (e'.key ++ codes "/config"))))
          (append_cancel_left (codes "homeassistant/") _ _ h) in
      (
        types,
        append_cancel_right e.key e'.key (codes "/config") (
            append_cancel_left (b'/' ∷ []) _ _
              (append_cancel_left serial _ _ (append_cancel_left (codes "nbe_") _ _ rest))),
      )

  abbrev keys_of : List (EntityConfig V) → List Bytes
  keys_of entities = map (λ e. e.key) entities

  -- No entity of a list has this discovery topic.
  abbrev pub LacksTopic : Bytes → List (EntityConfig V) → Bytes → Type 0
  LacksTopic serial entities topic =
      All (λ e. (get_discovery_topic e serial == topic) ≡ false) entities

  abbrev pub Apart : Bytes → List (EntityConfig V) → Type 0
  Apart serial [] = Unit
  Apart serial (e ∷ entities) =
      LacksTopic serial entities (get_discovery_topic e serial) × Apart serial entities

  none_is-LacksTopic :
      (serial : Bytes) (e : EntityConfig V) (entities : List (EntityConfig V))
      → none_is e.key (keys_of entities) ≡ true
      → LacksTopic serial entities (get_discovery_topic e serial)
  none_is-LacksTopic serial e [] h = tt
  none_is-LacksTopic serial e (e' ∷ entities) h =
      elim (Bool-cases (get_discovery_topic e' serial == get_discovery_topic e serial)) [
        | inl same ↦ absurd (
            ground (
              arith,
              bytes_beq_iff e'.key e.key,
              get_discovery_topic-eq e' e serial (
                  (bytes_beq_iff (get_discovery_topic e' serial) (get_discovery_topic e serial)).0
                    same),
            ))
        | inr other ↦ (other, none_is-LacksTopic serial e entities (ground arith))
      ]

  distinct-Apart :
      (serial : Bytes) (entities : List (EntityConfig V))
      → distinct (keys_of entities) ≡ true
      → Apart serial entities
  distinct-Apart serial [] h = tt
  distinct-Apart serial (e ∷ entities) h = (
    none_is-LacksTopic serial e entities (ground arith),
    distinct-Apart serial entities (ground arith),
  )

-- The entities of the table have different discovery topics, for every serial.
pub all_entities-Apart : (serial : Bytes) → Apart serial all_entities
unfolding all_entities
all_entities-Apart serial = distinct-Apart serial all_entities refl
