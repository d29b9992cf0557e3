-- ===== src/Mode/Hosts.antt =====
-- The inventories that mode/mode_remote.go and mode/mode_local.go write: their hosts, and the text
-- that their templates give.
pub mod Lines
use terraform_provisioner_an.Base.{
  ◌≡◌, Bool, true, false, not, ◌||◌, List, [], ◌∷◌, ◌++◌, map, Text, text, text_eq, is_empty,
  if◌then◌else◌,
}

-- The loop that sets `found`.
unfoldable pub has_localhost : List Text → Bool
has_localhost [] = false
has_localhost (host ∷ hosts) = if text_eq host (text "localhost") then true else has_localhost hosts

unfoldable pub ensure_localhost_in_hosts : List Text → List Text
ensure_localhost_in_hosts hosts =
    if not (has_localhost hosts) then text "localhost" ∷ hosts else hosts

pub record LocalHost : Type 0 where
  pub alias : Text
  pub ansible_host : Text

abbrev named : List Text → List LocalHost
named [] = []
named (host ∷ hosts) =
    let rest = named hosts in
    if not (is_empty host) then record { alias = host; ansible_host = [] } ∷ rest else rest

-- A compute resource has one host, under the name of the play's first one.
abbrev compute_hosts : Text → List Text → List LocalHost
compute_hosts host [] = record { alias = host; ansible_host = [] } ∷ []
compute_hosts host (first ∷ _) =
    if not (is_empty first)
    then record { alias = first; ansible_host = host } ∷ []
    else record { alias = host; ansible_host = [] } ∷ []

-- The hosts in the template's data, for the connection's host and the play's hosts.
unfoldable pub local_hosts : Text → List Text → List LocalHost
local_hosts host play_hosts =
    if not (is_empty host) then compute_hosts host play_hosts else named play_hosts

unfoldable pub local_line : LocalHost → Text
local_line h =
    h.alias
    ++ (if not (is_empty h.ansible_host) then text " ansible_host=" ++ h.ansible_host else [])

unfoldable pub remote_line : Text → Text
remote_line host = host ++ text " ansible_connection=local"

-- `printf "\n"`
abbrev pub newline : Text
newline = 10 ∷ []

-- Each line and the newline behind it.
unfoldable pub lines_text : List Text → Text
lines_text [] = []
lines_text (line ∷ lines) = line ++ (newline ++ lines_text lines)

unfoldable pub group_header : Text → Text
group_header group = text "[" ++ (group ++ text "]")

unfoldable pub groups_text : List Text → List Text → Text
groups_text lines [] = []
groups_text lines (group ∷ groups) =
    group_header group
    ++ (newline ++ (lines_text lines ++ (newline ++ (newline ++ groups_text lines groups))))

-- What both templates give, for the lines of their hosts: the hosts, then each group with all of
-- them.
unfoldable pub inventory_text : List Text → List Text → Text
inventory_text lines groups = lines_text lines ++ (newline ++ (newline ++ groups_text lines groups))

unfoldable pub local_inventory : Text → List Text → List Text → Text
local_inventory host play_hosts groups =
    inventory_text (map local_line (local_hosts host play_hosts)) groups

unfoldable pub remote_inventory : List Text → List Text → Text
remote_inventory play_hosts groups =
    inventory_text (map remote_line (ensure_localhost_in_hosts play_hosts)) groups
