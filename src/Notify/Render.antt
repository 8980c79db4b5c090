-- ===== src/Notify/Render.antt =====
-- backend/src/notifications/render.rs: the titles and bodies of notifications.
pub mod Privacy
use oott.Prelude.{
  ℕ, ◌-◌, Bool, true, false, Option, none, some, List, [], ◌∷◌, ◌++◌, length, drop, take, ltb,
  if◌then◌else◌,
}
use oott.Prelude.Text.{Text, bytes, is_empty, join, decimal}
use oott.Model.Device.{Device}

abbrev pub summary_list_limit : ℕ
summary_list_limit = 3

abbrev pub unknown_placeholder : Text
unknown_placeholder = bytes "-"

-- The UTF-8 bytes of the character `…`, and a line break.
abbrev pub ellipsis : Text
ellipsis = 226 ∷ 128 ∷ 166 ∷ []

abbrev pub line_break : Text
line_break = 10 ∷ []

-- `writeln!`.
abbrev pub line : Text → Text
line t = t ++ line_break

abbrev pub or_placeholder : Text → Text
or_placeholder t = if is_empty t then unknown_placeholder else t

-- `display_name`.
unfoldable pub name_text : Option Text → Text
name_text none = unknown_placeholder
name_text (some n) = or_placeholder n

unfoldable pub display_name : Device → Text
unfolding name_text
display_name device = name_text device.name

-- The last five bytes of a MAC that is longer.
unfoldable pub mac_suffix : Text → Text
mac_suffix mac = if ltb 5 (length mac) then drop (length mac - 5) mac else mac

abbrev pub vendor_or_mac : Device → Text
vendor_or_mac device =
    if is_empty device.vendor
    then bytes "device " ++ (ellipsis ++ mac_suffix device.mac_address)
    else device.vendor

abbrev pub identity_of : Option Text → Text → Text
identity_of none fallback = fallback
identity_of (some n) fallback = if is_empty n then fallback else n

-- `title_identity`: the name, else the vendor, else the end of the MAC.
unfoldable pub title_identity : Device → Text
unfolding mac_suffix
title_identity device = identity_of device.name (vendor_or_mac device)

-- `device_type_or_placeholder`.
unfoldable pub device_type_or_placeholder : Device → Text
device_type_or_placeholder device = or_placeholder device.device_type

-- `vendor_or_placeholder`.
unfoldable pub vendor_or_placeholder : Device → Text
vendor_or_placeholder device = or_placeholder device.vendor

-- `registration_line`.
unfoldable pub registration_line : Device → Text
registration_line device =
    if device.is_registered
    then if is_empty device.owner
      then bytes "Registered"
      else bytes "Registered to " ++ device.owner
    else bytes "Not registered"

abbrev pub device_lines : Device → Text
device_lines device =
    line (bytes "Device")
    ++ (line (bytes "  Name: " ++ display_name device)
        ++ (line (bytes "  Vendor: " ++ vendor_or_placeholder device)
            ++ line (bytes "  Type: " ++ device_type_or_placeholder device)))

-- `render_new_device`: the title and the body.
unfoldable pub render_new_device : Device → Text × Text
unfolding title_identity display_name vendor_or_placeholder device_type_or_placeholder
render_new_device device = (
  bytes "New device on your network: " ++ title_identity device,
  line (bytes "A device that has not been seen before joined your network.")
      ++ (line []
          ++ (device_lines device
              ++ (line []
                  ++ bytes
                      "If you do not recognise this device, consider investigating before granting it continued access."))),
)

-- `render_device_back_online`.
unfoldable pub render_device_back_online : Device → Text → Text × Text
unfolding title_identity display_name vendor_or_placeholder device_type_or_placeholder
    registration_line
render_device_back_online device duration_text = (
  bytes "Device back online after " ++ (duration_text ++ (bytes ": " ++ title_identity device)),
  line (bytes "A known device returned to your network after being absent.")
      ++ (line []
          ++ (device_lines device
              ++ (line []
                  ++ (line (bytes "Status")
                      ++ (line (bytes "  " ++ registration_line device)
                          ++ (line []
                              ++ (line (bytes "Activity")
                                  ++ (bytes "  Absent for: " ++ duration_text)))))))),
)

-- The words of the title for the two flags of a change.
unfoldable pub change_title : Bool → Bool → Text
change_title true true = bytes "Device changed IP and vendor: "
change_title true false = bytes "Device changed IP: "
change_title false true = bytes "Device changed vendor: "
change_title false false = bytes "Device changed: "

abbrev pub vendor_lines : Device → Device → Text
vendor_lines existing sighted =
    line (bytes "  Vendor: " ++ (existing.vendor ++ (bytes " -> " ++ sighted.vendor)))
    ++ (line []
        ++ bytes
            "A vendor change on the same MAC address is unusual and may indicate MAC spoofing.")

-- `render_device_changed`.
unfoldable pub render_device_changed : Device → Device → Bool → Bool → Text × Text
unfolding title_identity display_name device_type_or_placeholder registration_line change_title
render_device_changed existing sighted ip_changed vendor_changed_flag = (
  change_title ip_changed vendor_changed_flag ++ title_identity sighted,
  line (bytes "An existing device's network details changed.")
      ++ (line []
          ++ (line (bytes "Device")
              ++ (line (bytes "  Name: " ++ display_name sighted)
                  ++ (line (bytes "  Type: " ++ device_type_or_placeholder sighted)
                      ++ (line []
                          ++ (line (bytes "Status")
                              ++ (line (bytes "  " ++ registration_line sighted)
                                  ++ (line []
                                      ++ (line (bytes "Changes")
                                          ++ ((if ip_changed
                                                then line (bytes "  IP address changed")
                                                else [])
                                              ++ (if vendor_changed_flag
                                                  then vendor_lines existing sighted
                                                  else []))))))))))),
)

abbrev pub details : Text → List Text
details t = if is_empty t then [] else t ∷ []

abbrev pub in_parentheses : List Text → Text
in_parentheses [] = []
in_parentheses (d ∷ ds) = bytes " (" ++ (join (bytes ", ") (d ∷ ds) ++ bytes ")")

-- `summary_device_line`.
unfoldable pub summary_device_line : Device → Text
unfolding display_name join
summary_device_line device =
    display_name device ++ in_parentheses (details device.vendor ++ details device.device_type)

-- The lines of a list of devices.
unfoldable pub device_list_lines : List Device → Text
unfolding summary_device_line
device_list_lines [] = []
device_list_lines (d ∷ ds) = line (bytes "  - " ++ summary_device_line d) ++ device_list_lines ds

-- `write_device_summary`.
unfoldable pub write_device_summary : List Device → Text
unfolding device_list_lines decimal
write_device_summary devices =
    device_list_lines (take summary_list_limit devices)
    ++ (if ltb summary_list_limit (length devices)
        then line (
            bytes "  "
            ++ (ellipsis
                ++ (bytes "and "
                    ++ (decimal (length devices - summary_list_limit) ++ bytes " more devices"))))
        else [])

-- `render_new_devices_summary`.
unfoldable pub render_new_devices_summary : List Device → Text × Text
unfolding write_device_summary
render_new_devices_summary devices = (
  decimal (length devices) ++ bytes " new devices found on your network",
  line (
        decimal (length devices)
        ++ bytes " devices that have not been seen before joined your network.")
      ++ (line []
          ++ (line (bytes "Devices")
              ++ (write_device_summary devices
                  ++ (line []
                      ++ bytes
                          "If you do not recognise these devices, consider investigating before granting them continued access.")))),
)

-- `render_back_online_summary`.
unfoldable pub render_back_online_summary : List Device → Text × Text
unfolding write_device_summary
render_back_online_summary devices = (
  decimal (length devices) ++ bytes " devices back online",
  line (
        decimal (length devices)
        ++ bytes " known devices returned to your network after being absent.")
      ++ (line [] ++ (line (bytes "Devices") ++ write_device_summary devices)),
)

-- `render_changed_summary`.
unfoldable pub render_changed_summary : List Device → Text × Text
unfolding write_device_summary
render_changed_summary devices = (
  decimal (length devices) ++ bytes " devices changed on your network",
  line (
        decimal (length devices)
        ++ bytes " existing devices changed their network details (IP address and/or vendor).")
      ++ (line []
          ++ (line (bytes "Devices")
              ++ (write_device_summary devices
                  ++ (line []
                      ++ bytes
                          "A vendor change on the same device is unusual and may indicate MAC spoofing.")))),
)
