-- ===== src/Triage/Data.antt =====
-- triage/data.py: the log sources, the observation views and the label-free `View`.
use airtrace.Prelude.{
  ℕ, Bool, true, false, Option, none, some, List, [], ◌∷◌, ◌||◌, map, if◌then◌else◌,
}
use airtrace.Text.Base.{Text, codes}
use airtrace.Text.Order.{text_eq}
use airtrace.Json.{object, Fields, sorted, dumps}

pub data Source : Type 0 where
  hostapd wpa_supplicant dhcp_server dhcp_client : Source

abbrev pub source_name : Source → Text
source_name hostapd = codes "hostapd"
source_name wpa_supplicant = codes "wpa_supplicant"
source_name dhcp_server = codes "dhcp_server"
source_name dhcp_client = codes "dhcp_client"

-- `SOURCES`
abbrev pub sources : List Source
sources = hostapd ∷ wpa_supplicant ∷ dhcp_server ∷ dhcp_client ∷ []

unfoldable pub source_eq : Source → Source → Bool
source_eq hostapd hostapd = true
source_eq wpa_supplicant wpa_supplicant = true
source_eq dhcp_server dhcp_server = true
source_eq dhcp_client dhcp_client = true
source_eq _ _ = false

-- The keys of `VIEW_SOURCES`.
pub data ViewName : Type 0 where
  client full : ViewName

-- `VIEW_SOURCES[name]`
unfoldable pub view_sources : ViewName → List Source
view_sources client = wpa_supplicant ∷ dhcp_client ∷ []
view_sources full = sources

-- The view that a name stands for; any other name raises `ValueError`.
unfoldable pub view_named : Text → Option ViewName
view_named name =
    if text_eq name (codes "client")
    then some client
    else if text_eq name (codes "full")
    then some full
    else none

-- The exact representation used both in tools and citation checks.
unfoldable pub render_frame : Fields → Text
render_frame frame = dumps sorted (object frame)

abbrev pub Logs : Type 0
Logs = List (Source × List Text)

-- `logs.get(source)`
unfoldable pub log_of : Logs → Source → Option (List Text)
log_of [] s = none
log_of ((t, lines) ∷ logs) s =
    let rest = log_of logs s in if source_eq t s then some lines else rest

-- `logs.get(source, [])`
unfoldable pub log_or_empty : Logs → Source → List Text
log_or_empty logs s = elim (log_of logs s) [ none ↦ [] | some lines ↦ lines ]

-- `frames` is a dict by frame number, in capture order.
pub record View : Type 0 where
  pub frames : List (ℕ × Fields)
  pub logs : Logs
  pub stats : Text
  pub name : ViewName

-- The constructor with its `__post_init__`: the logs of the view's sources and no others.
unfoldable pub make_view : List (ℕ × Fields) → Logs → Text → ViewName → View
make_view frames logs stats name = record {
  frames = frames;
  logs = map (λ s. (s, log_or_empty logs s)) (view_sources name);
  stats = stats;
  name = name;
}

unfoldable pub mem_source : Source → List Source → Bool
mem_source s [] = false
mem_source s (t ∷ ts) = source_eq t s || mem_source s ts

-- What a citation names: a frame or a log.
pub data Cited : Type 0 where
  frame : Cited
  log : Source → Cited

unfoldable pub contains_source : View → Cited → Bool
contains_source view frame = true
contains_source view (log s) = mem_source s (view_sources view.name)
