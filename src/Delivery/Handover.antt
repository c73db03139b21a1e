-- ===== src/Delivery/Handover.antt =====
-- ki_radar/delivery/handover.py: the recorded handover of the current package.
use ki_use_case_radar.Common.{
  Bool, ◌&&◌, ◌||◌, Option, none, some, List, if◌then◌else◌, is_some, ltb, ◌==◌, first_by,
}
use ki_use_case_radar.Delivery.Model.{DeliveryPackage, handed_over, package_status_eq}

-- `order_by("-version", "-created_at")`
abbrev pub package_before : DeliveryPackage → DeliveryPackage → Bool
package_before a b =
    ltb b.version a.version || a.version == b.version && ltb b.created_at a.created_at

abbrev pub current_package : List DeliveryPackage → Option DeliveryPackage
current_package = first_by package_before

abbrev pub recorded : Option DeliveryPackage → Option DeliveryPackage
recorded none = none
recorded (some p) =
    if package_status_eq p.status handed_over && is_some p.handed_over_at then some p else none

unfoldable pub recorded_handover_package : List DeliveryPackage → Option DeliveryPackage
recorded_handover_package packages = recorded (current_package packages)
