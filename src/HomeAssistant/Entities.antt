-- ===== src/HomeAssistant/Entities.antt =====
-- homeassistant/entities.go: the table of the entities, by their types, in the source's order.
use boiler_mate.Prelude.{List, [], ◌∷◌, ◌++◌, Bytes, codes, none, some}
use boiler_mate.Prelude.Int.{ℤ, pos}
use boiler_mate.HomeAssistant.Config.{EntityConfig, sensor, number, button, switch}

-- An entity with no field set, as a composite literal begins.
abbrev blank : EntityConfig ℤ
blank = record {
  key = [];
  name = [];
  entity_type = sensor;
  entity_category = [];
  device_class = [];
  icon = [];
  unit = [];
  state_topic = [];
  command_topic = [];
  precision = pos 0;
  min_value = none;
  max_value = none;
  step = [];
  mode = [];
  payload_press = [];
}

-- The UTF-8 bytes of the unit of temperatures.
abbrev celsius : Bytes
celsius = 0xC2 ∷ (0xB0 ∷ codes "C")

abbrev pub sensors : List (EntityConfig ℤ)
sensors =
    record blank {
      key = codes "ip_address";
      name = codes "IP Address";
      entity_type = sensor;
      entity_category = codes "diagnostic";
      state_topic = codes "device/ip_address";
    }
    ∷ record blank {
      key = codes "serial";
      name = codes "Serial";
      entity_type = sensor;
      entity_category = codes "diagnostic";
      state_topic = codes "device/serial";
    }
    ∷ record blank {
      key = codes "boiler_temp";
      name = codes "Boiler Temperature";
      entity_type = sensor;
      entity_category = codes "diagnostic";
      device_class = codes "temperature";
      unit = celsius;
      precision = pos 2;
      state_topic = codes "operating_data/boiler_temp";
    }
    ∷ record blank {
      key = codes "dhw_temp_sensor";
      name = codes "DHW Temperature";
      entity_type = sensor;
      entity_category = codes "diagnostic";
      device_class = codes "temperature";
      unit = celsius;
      icon = codes "mdi:water-thermometer";
      precision = pos 1;
      state_topic = codes "operating_data/dhw_temp";
    }
    ∷ record blank {
      key = codes "oxygen";
      name = codes "Oxygen";
      entity_type = sensor;
      entity_category = codes "diagnostic";
      unit = codes "%";
      icon = codes "mdi:air-filter";
      precision = pos 2;
      state_topic = codes "operating_data/oxygen";
    }
    ∷ record blank {
      key = codes "status";
      name = codes "Status";
      entity_type = sensor;
      entity_category = codes "diagnostic";
      icon = codes "mdi:power";
      state_topic = codes "operating_data/state_text";
    }
    ∷ record blank {
      key = codes "smoke_temp";
      name = codes "Smoke Temperature";
      entity_type = sensor;
      entity_category = codes "diagnostic";
      device_class = codes "temperature";
      unit = celsius;
      precision = pos 2;
      state_topic = codes "operating_data/smoke_temp";
    }
    ∷ record blank {
      key = codes "photo_level";
      name = codes "Photo Level";
      entity_type = sensor;
      entity_category = codes "diagnostic";
      unit = codes "%";
      icon = codes "mdi:lightbulb";
      precision = pos 2;
      state_topic = codes "operating_data/photo_level";
    }
    ∷ record blank {
      key = codes "power_kw";
      name = codes "Power (kW)";
      entity_type = sensor;
      entity_category = codes "diagnostic";
      device_class = codes "power";
      unit = codes "kW";
      precision = pos 2;
      state_topic = codes "operating_data/power_kw";
    }
    ∷ record blank {
      key = codes "power_pct";
      name = codes "Power (%)";
      entity_type = sensor;
      entity_category = codes "diagnostic";
      device_class = codes "power";
      unit = codes "%";
      precision = pos 2;
      state_topic = codes "operating_data/power_pct";
    }
    ∷ record blank {
      key = codes "dhw_diff_under_sensor";
      name = codes "DHW Difference Under";
      entity_type = sensor;
      entity_category = codes "diagnostic";
      device_class = codes "temperature";
      unit = celsius;
      icon = codes "mdi:water-thermometer";
      precision = pos 1;
      state_topic = codes "hot_water/diff_under";
    }
    ∷ record blank {
      key = codes "external_temp";
      name = codes "External Temperature";
      entity_type = sensor;
      device_class = codes "temperature";
      unit = celsius;
      precision = pos 1;
      icon = codes "mdi:weather-cloudy";
      state_topic = codes "operating_data/external_temp";
    }
    ∷ []

abbrev pub numbers : List (EntityConfig ℤ)
numbers =
    record blank {
      key = codes "boiler_setpoint";
      name = codes "Wanted Temperature";
      entity_type = number;
      entity_category = codes "config";
      device_class = codes "temperature";
      unit = celsius;
      mode = codes "box";
      min_value = some (pos 0);
      max_value = some (pos 85);
      precision = pos 1;
      step = codes "1";
      state_topic = codes "boiler/temp";
      command_topic = codes "set/boiler/temp";
    }
    ∷ record blank {
      key = codes "dhw_setpoint";
      name = codes "DHW Wanted Temperature";
      entity_type = number;
      entity_category = codes "config";
      device_class = codes "temperature";
      unit = celsius;
      mode = codes "box";
      icon = codes "mdi:water-thermometer";
      min_value = some (pos 0);
      max_value = some (pos 85);
      precision = pos 1;
      step = codes "1";
      state_topic = codes "hot_water/temp";
      command_topic = codes "set/hot_water/temp";
    }
    ∷ record blank {
      key = codes "boiler_power_min";
      name = codes "Minimum Power (%)";
      entity_type = number;
      entity_category = codes "config";
      unit = codes "%";
      mode = codes "box";
      min_value = some (pos 10);
      max_value = some (pos 100);
      precision = pos 0;
      step = codes "1";
      state_topic = codes "regulation/boiler_power_min";
      command_topic = codes "set/regulation/boiler_power_min";
    }
    ∷ record blank {
      key = codes "boiler_power_max";
      name = codes "Maximum Power (%)";
      entity_type = number;
      entity_category = codes "config";
      unit = codes "%";
      mode = codes "box";
      min_value = some (pos 10);
      max_value = some (pos 100);
      precision = pos 0;
      step = codes "1";
      state_topic = codes "regulation/boiler_power_max";
      command_topic = codes "set/regulation/boiler_power_max";
    }
    ∷ record blank {
      key = codes "diff_under";
      name = codes "Difference Under";
      entity_type = number;
      entity_category = codes "config";
      device_class = codes "temperature";
      unit = celsius;
      mode = codes "box";
      icon = codes "mdi:arrow-collapse-down";
      min_value = some (pos 0);
      max_value = some (pos 50);
      precision = pos 1;
      step = codes "1";
      state_topic = codes "boiler/diff_under";
      command_topic = codes "set/boiler/diff_under";
    }
    ∷ record blank {
      key = codes "diff_over";
      name = codes "Difference Over";
      entity_type = number;
      entity_category = codes "config";
      device_class = codes "temperature";
      unit = celsius;
      mode = codes "box";
      icon = codes "mdi:arrow-collapse-up";
      min_value = some (pos 10);
      max_value = some (pos 20);
      precision = pos 1;
      step = codes "1";
      state_topic = codes "boiler/diff_over";
      command_topic = codes "set/boiler/diff_over";
    }
    ∷ record blank {
      key = codes "dhw_diff_under";
      name = codes "DHW difference under";
      entity_type = number;
      entity_category = codes "config";
      device_class = codes "temperature";
      unit = celsius;
      mode = codes "box";
      icon = codes "mdi:arrow-collapse-down";
      min_value = some (pos 5);
      max_value = some (pos 30);
      precision = pos 1;
      step = codes "1";
      state_topic = codes "hot_water/diff_under";
      command_topic = codes "set/hot_water/diff_under";
    }
    ∷ record blank {
      key = codes "hopper_content";
      name = codes "Hopper";
      entity_type = number;
      entity_category = codes "config";
      device_class = codes "weight";
      unit = codes "kg";
      mode = codes "box";
      icon = codes "mdi:storage-tank";
      min_value = some (pos 0);
      max_value = some (pos 999);
      precision = pos 1;
      step = codes "1";
      state_topic = codes "hopper/content";
      command_topic = codes "set/hopper/content";
    }
    ∷ []

abbrev pub buttons : List (EntityConfig ℤ)
buttons =
    record blank {
      key = codes "start_calibrate";
      name = codes "Start O2 Sensor Calibration";
      entity_type = button;
      entity_category = codes "config";
      icon = codes "mdi:air-filter";
      state_topic = codes "oxygen/start_calibrate";
      command_topic = codes "set/oxygen/start_calibrate";
      payload_press = codes "1";
    }
    ∷ []

abbrev pub switches : List (EntityConfig ℤ)
switches =
    record blank {
      key = codes "power";
      name = codes "Power";
      entity_type = switch;
      entity_category = codes "config";
      icon = codes "mdi:power";
      state_topic = codes "operating_data/state_on";
      command_topic = codes "set/device/power_switch";
    }
    ∷ []

-- `AllEntities`.
unfoldable pub all_entities : List (EntityConfig ℤ)
all_entities = sensors ++ (numbers ++ (buttons ++ switches))
