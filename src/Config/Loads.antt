-- ===== src/Config/Loads.antt =====
-- A configuration that passes the check has ports that can be read.
use machine_controller.Base.{◌≡◌, refl, Bool, List, [], ◌∷◌, String, some}
use machine_controller.Base.Maps.{Map, insert}
use machine_controller.Base.Options.{>>=-eq-some, >>=-step}
use machine_controller.Config.Tree.{JsonTree}
use machine_controller.Config.Pins.{
  add_ports, check_directions, get_pci7248_io_ports_configuration, is_pci7248_configuration_valid,
}

module _ (T : JsonTree) where
  open T use {Value, entries, get_text}

  check_directions-add_ports :
      (es : List (String × Value)) (acc : Map String) (valid : Bool)
      → check_directions T es ≡ some valid
      → (ports : Map String) × (add_ports T es acc ≡ some ports)
  unfolding check_directions add_ports
  check_directions-add_ports [] acc valid h = (acc, refl)
  check_directions-add_ports ((key, v) ∷ rest) acc valid h =
      let (direction, (text, more)) = >>=-eq-some (get_text v) _ valid h in
      let (others, (rest_valid, _)) = >>=-eq-some (check_directions T rest) _ valid more in
      let (ports, added) =
        check_directions-add_ports rest (insert key direction acc) others rest_valid in
      (ports, >>=-step (get_text v) direction _ _ text added)

  pub valid-loads :
      (config : Value) (valid : Bool)
      → is_pci7248_configuration_valid T config ≡ some valid
      → (ports : Map String) × (get_pci7248_io_ports_configuration T config ≡ some ports)
  unfolding is_pci7248_configuration_valid get_pci7248_io_ports_configuration
  valid-loads config valid h =
      let (io, (io_read, h1)) = >>=-eq-some (T.value config "io" T.object) _ valid h in
      let (pc, (pc_read, h2)) = >>=-eq-some (T.value io "portsConfiguration" T.object) _ valid h1 in
      let (es, (es_read, h3)) = >>=-eq-some (entries pc) _ valid h2 in
      let (directions, (checked, _)) = >>=-eq-some (check_directions T es) _ valid h3 in
      let (ports, added) = check_directions-add_ports es [] directions checked in
      (
        ports,
        >>=-step (T.value config "io" T.object) io _ _ io_read (
            >>=-step (T.value io "portsConfiguration" T.object) pc _ _ pc_read
              (>>=-step (entries pc) es _ _ es_read added)),
      )
