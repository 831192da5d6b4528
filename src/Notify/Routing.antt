-- ===== src/Notify/Routing.antt =====
-- src/notify/routing.rs: which sinks an event goes to.
use xrelease.Base.{
  String, Bool, true, false, Option, none, some, List, is_empty, any, str_eq, if◌then◌else◌,
}
use xrelease.Text.{trim}
use xrelease.Notify.Event.{Event}

-- `.map(str::trim).filter(|tag| !tag.is_empty())`
unfoldable pub non_blank : Option String → Option String
non_blank none = none
non_blank (some tag) = if str_eq (trim tag) "" then none else some (trim tag)

tag_listed : List String → Option String → Bool
tag_listed sink_tags none = false
tag_listed sink_tags (some tag) = any (λ t. str_eq (trim t) tag) sink_tags

unfoldable pub matches_routing_tags : List String → Option String → Bool
unfolding tag_listed non_blank
matches_routing_tags sink_tags event_tag =
    if is_empty sink_tags then true else tag_listed sink_tags (non_blank event_tag)

unfoldable pub event_matches_sink_tags : Event → List String → Bool
unfolding matches_routing_tags
event_matches_sink_tags event sink_tags = matches_routing_tags sink_tags event.routing_tag
