-- ===== src/App/Topics.antt =====
-- cmd/boiler-mate/main.go: the set topics of a prefix and the keys that they name.
use boiler_mate.Prelude.{
  ◌≡◌, refl, sym, List, [], ◌∷◌, ◌++◌, Bytes, codes, some, arith, append_assoc,
}
use boiler_mate.Go.Split.{split, split-join, Lacks, join, split-append}
use boiler_mate.App.{last_two, parse_set_topic}

last_two-append : (ps : List Bytes) (p q : Bytes) → last_two (ps ++ (p ∷ (q ∷ []))) ≡ some (p, q)
unfolding last_two
last_two-append [] p q = refl
last_two-append (a ∷ []) p q = refl
last_two-append (a ∷ (b ∷ [])) p q = refl
last_two-append (a ∷ (b ∷ (c ∷ ps))) p q = last_two-append (b ∷ (c ∷ ps)) p q

-- The topic of a setting under a prefix.
abbrev pub set_topic : Bytes → Bytes → Bytes → Bytes
set_topic prefix category param =
    prefix ++ (b'/' ∷ (codes "set" ++ (b'/' ∷ (category ++ (b'/' ∷ param)))))

set-Lacks : Lacks b'/' (codes "set")
set-Lacks = (ground arith, (ground arith, (ground arith, tt)))

-- Under any prefix, one with slashes included, the topic of a category and a parameter without a
-- slash gives the category, a dot and the parameter.
pub parse_set_topic-set_topic :
    (prefix category param : Bytes)
    → Lacks b'/' category
    → Lacks b'/' param
    → parse_set_topic (set_topic prefix category param) ≡ category ++ (b'.' ∷ param)
unfolding parse_set_topic join
parse_set_topic-set_topic prefix category param plain plain' =
    rw
      (
        split-append b'/' prefix (join b'/' (codes "set" ∷ (category ∷ (param ∷ [])))),
        split-join b'/' (codes "set") (category ∷ (param ∷ [])) set-Lacks (plain, (plain', tt)),
        sym (append_assoc (split b'/' prefix) (codes "set" ∷ []) (category ∷ (param ∷ []))),
        last_two-append (split b'/' prefix ++ (codes "set" ∷ [])) category param,
      )
      refl
