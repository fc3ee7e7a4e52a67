-- ===== src/HomeAssistant/Controls.antt =====
-- homeassistant/entities.go against nbe/types.go and cmd/boiler-mate/main.go: what the controls of
-- the table show and set.
use boiler_mate.Prelude.{
  ◌≡◌, refl, ◌∙◌, true, false, Bool, arith, List, [], ◌∷◌, ◌++◌, Bytes, codes, some, ◌==◌, bytes_eq,
  All, ◌||◌, append_assoc, All-append,
}
use boiler_mate.Prelude.Int.{ℤ}
use boiler_mate.Go.Map.{lookup}
use boiler_mate.Go.Split.{Lacks}
use boiler_mate.Nbe.Types.{settings}
use boiler_mate.App.{parse_set_topic}
use boiler_mate.App.Topics.{set_topic, parse_set_topic-set_topic}
use boiler_mate.Mqtt.{under}
use boiler_mate.HomeAssistant.Config.{EntityConfig, text, Device, build, resolve, is_set, is_switch}
use boiler_mate.HomeAssistant.Build.{lookup_cmd_t-build, lookup_stat_t-build}
use boiler_mate.HomeAssistant.Entities.{numbers, buttons, switches}

abbrev pub is_category : Bytes → List Bytes → Bool
is_category category [] = false
is_category category (c ∷ cs) = c == category || is_category category cs

-- An entity that shows and sets one setting of the boiler: its message names the topic at which
-- the settings monitor of the category publishes the parameter, and a topic for commands that the
-- set handler reads as that category and parameter.
pub record IsControl {V : Type 0} (serial prefix : Bytes) (block : Device) (e : EntityConfig V)
    : Type 0 where
  pub category : Bytes
  pub param : Bytes
  pub command : Bytes
  pub is_known : is_category category settings ≡ true
  pub shows :
      lookup (codes "stat_t") (build e serial prefix block)
      ≡ some (text (under (under prefix category) param))
  pub listens : lookup (codes "cmd_t") (build e serial prefix block) ≡ some (text command)
  pub sets : parse_set_topic command ≡ category ++ (b'.' ∷ param)

module _ (serial prefix : Bytes) (block : Device) where
  control :
      (e : EntityConfig ℤ) (category param : Bytes)
      → is_category category settings ≡ true
      → resolve prefix e.state_topic ≡ under prefix (under category param)
      → is_set e.state_topic ≡ true
      → resolve prefix e.command_topic ≡ set_topic prefix category param
      → is_set e.command_topic ≡ true
      → is_switch e.entity_type ≡ false
      → Lacks b'/' category
      → Lacks b'/' param
      → IsControl serial prefix block e
  control e category param known state has_state command has_command kind plain plain' = record {
    category = category;
    param = param;
    command = set_topic prefix category param;
    is_known = known;
    shows =
        (lookup_stat_t-build e serial prefix block).1
        ∙ rw (kind, has_state, state)
            (rw (append_assoc prefix (b'/' ∷ category) (b'/' ∷ param)) refl);
    listens = lookup_cmd_t-build e serial prefix block ∙ rw (has_command, command) refl;
    sets = parse_set_topic-set_topic prefix category param plain plain';
  }

  numbers-IsControl : All (IsControl serial prefix block) numbers
  numbers-IsControl = (
    (control _ (codes "boiler") (codes "temp") refl refl refl refl refl refl (ground arith)
        (ground arith)),
    (
      (control _ (codes "hot_water") (codes "temp") refl refl refl refl refl refl (ground arith)
          (ground arith)),
      (
        (control _ (codes "regulation") (codes "boiler_power_min") refl refl refl refl refl refl
            (ground arith) (ground arith)),
        (
          (control _ (codes "regulation") (codes "boiler_power_max") refl refl refl refl refl refl
              (ground arith) (ground arith)),
          (
            (control _ (codes "boiler") (codes "diff_under") refl refl refl refl refl refl
                (ground arith) (ground arith)),
            (
              (control _ (codes "boiler") (codes "diff_over") refl refl refl refl refl refl
                  (ground arith) (ground arith)),
              (
                (control _ (codes "hot_water") (codes "diff_under") refl refl refl refl refl refl
                    (ground arith) (ground arith)),
                (
                  (control _ (codes "hopper") (codes "content") refl refl refl refl refl refl
                      (ground arith) (ground arith)),
                  tt,
                ),
              ),
            ),
          ),
        ),
      ),
    ),
  )

  buttons-IsControl : All (IsControl serial prefix block) buttons
  buttons-IsControl = (
    (control _ (codes "oxygen") (codes "start_calibrate") refl refl refl refl refl refl
        (ground arith) (ground arith)),
    tt,
  )

  -- Every number and button of the table shows and sets one setting of a category that has a
  -- settings monitor, the same one under both of its topics, for every prefix: its message names
  -- the topic at which the monitor publishes it, and a command topic that the set handler reads as
  -- that category and parameter.
  pub controls-IsControl : All (IsControl serial prefix block) (numbers ++ buttons)
  controls-IsControl =
      All-append (IsControl serial prefix block) numbers buttons numbers-IsControl buttons-IsControl

  -- The switch listens on the topic of the power switch and shows the state of the operating data
  -- monitor.
  pub switches-power :
      All
        (λ e.
          (lookup (codes "cmd_t") (build e serial prefix block)
            ≡ some (text (set_topic prefix (codes "device") (codes "power_switch"))))
          × (lookup (codes "state_topic") (build e serial prefix block)
              ≡ some (text (under (under prefix (codes "operating_data")) (codes "state_on")))))
        switches
  switches-power = (
    (
      lookup_cmd_t-build _ serial prefix block,
      (lookup_stat_t-build _ serial prefix block).0
          ∙ rw (append_assoc prefix (b'/' ∷ codes "operating_data") (b'/' ∷ codes "state_on")) refl,
    ),
    tt,
  )
