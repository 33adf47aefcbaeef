-- ===== src/Codec/Subsystems.antt =====
-- codec/voltage.go and temperature.go: fields of counted subsystems, each with counted cells or probes.
use gb32960_go_sdk.Base.{
  ℕ, zero, suc, ◌+◌, ◌-◌, List, [], ◌∷◌, ltb, if◌then◌else◌, length, Result, ok, err, ◌>>=◌,
  too_short, index, slice, uint16_at,
}

pub record CellInfo : Type 0 where
  pub voltage : ℕ
  pub temp : ℕ

pub record CellVoltage : Type 0 where
  pub cell_no : ℕ
  pub cell_info : CellInfo

pub record SubsystemVoltage : Type 0 where
  pub subsys_no : ℕ
  pub voltage : ℕ
  pub current : ℕ
  pub cell_count : ℕ
  pub cells : List CellVoltage

pub record VoltageInfo : Type 0 where
  pub subsys_count : ℕ
  pub subsystem_voltages : List SubsystemVoltage

-- The loop over `n` more cells, with the position behind them; `Temp` is never assigned.
unfoldable pub cells_from : ℕ → List ℕ → ℕ → Result (List CellVoltage × ℕ)
cells_from zero input pos = ok ([], pos)
cells_from (suc n) input pos =
    let rest = cells_from n input (pos + 3) in
    if ltb (length input) (pos + 3) then ok ([], pos) else do
      cell_no ← index input pos
      voltage ← uint16_at input (pos + 1)
      (cells, end) ← rest
      ok (
        record { cell_no = cell_no; cell_info = record { voltage = voltage; temp = 0 } } ∷ cells,
        end,
      )

-- The loop over `n` more subsystems.
unfoldable pub voltages_from : ℕ → List ℕ → ℕ → Result (List SubsystemVoltage)
voltages_from zero input pos = ok []
voltages_from (suc n) input pos = if ltb (length input) (pos + 7) then ok [] else do
  subsys_no ← index input pos
  voltage ← uint16_at input (pos + 1)
  current ← uint16_at input (pos + 3)
  cell_count ← uint16_at input (pos + 5)
  (cells, end) ← cells_from cell_count input (pos + 7)
  subs ← voltages_from n input end
  ok (
      record {
        subsys_no = subsys_no;
        voltage = voltage;
        current = current;
        cell_count = cell_count;
        cells = cells;
      }
      ∷ subs)

unfoldable pub decode_voltage_data : List ℕ → Result VoltageInfo
decode_voltage_data input = if ltb (length input) 2 then err (too_short (length input)) else do
  subsys_count ← uint16_at input 0
  subs ← voltages_from subsys_count input 2
  ok (record { subsys_count = subsys_count; subsystem_voltages = subs })

pub record SubsystemTemperature : Type 0 where
  pub subsys_no : ℕ
  pub probe_count : ℕ
  pub probe_temperatures : List ℕ

pub record TemperatureInfo : Type 0 where
  pub subsys_count : ℕ
  pub subsystem_temperatures : List SubsystemTemperature

-- The probes that the bytes left can hold.
abbrev pub probes_left : List ℕ → ℕ → ℕ → ℕ
probes_left input pos n = if ltb (length input) (pos + n) then length input - pos else n

unfoldable pub temperatures_from : ℕ → List ℕ → ℕ → Result (List SubsystemTemperature)
temperatures_from zero input pos = ok []
temperatures_from (suc n) input pos = if ltb (length input) (pos + 3) then ok [] else do
  subsys_no ← index input pos
  probe_count ← uint16_at input (pos + 1)
  let k = probes_left input (pos + 3) probe_count
  probes ← slice input (pos + 3) (pos + 3 + k)
  subs ← temperatures_from n input (pos + 3 + k)
  ok (
      record { subsys_no = subsys_no; probe_count = probe_count; probe_temperatures = probes }
      ∷ subs)

unfoldable pub decode_temperature_data : List ℕ → Result TemperatureInfo
decode_temperature_data input = if ltb (length input) 2 then err (too_short (length input)) else do
  subsys_count ← uint16_at input 0
  subs ← temperatures_from subsys_count input 2
  ok (record { subsys_count = subsys_count; subsystem_temperatures = subs })
