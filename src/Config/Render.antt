-- ===== src/Config/Render.antt =====
-- The file's text for a document (dashboard/config.go: renderUnifiedConfig).
use ninj_os_proxie_edge_fabr.Prelude.{
  Bool, not, ◌&&◌, Option, none, some, List, [], ◌∷◌, ◌++◌, if◌then◌else◌, Text, ◌==◌, any, select,
}
use ninj_os_proxie_edge_fabr.GoText.{codes, has_prefix}
use ninj_os_proxie_edge_fabr.GoText.Sort.{sort_strings}
use ninj_os_proxie_edge_fabr.GoMap.{lookup, has_key}
use ninj_os_proxie_edge_fabr.Config.{Document}

abbrev pub is_backend_section : Text → Bool
is_backend_section section = has_prefix section (codes "backend.")

abbrev pub is_profile_section : Text → Bool
is_profile_section section = has_prefix section (codes "profile.")

abbrev pub among : List Text → Text → Bool
among names name = any (λ n. n == name) names

abbrev pub keys_of {ℓ} : {V : Type ℓ} → List (Text × V) → List Text
keys_of [] = []
keys_of ((key, v) ∷ entries) = key ∷ keys_of entries

abbrev pub standard : List Text
standard =
    codes "edge"
    ∷ codes "dashboard"
    ∷ codes "session_core"
    ∷ codes "companion"
    ∷ codes "transfer"
    ∷ codes "firewall"
    ∷ codes "incident"
    ∷ codes "health"
    ∷ codes "logging"
    ∷ codes "discord"
    ∷ []

abbrev backend_keys : List Text
backend_keys =
    codes "display_name"
    ∷ codes "host"
    ∷ codes "backend_port"
    ∷ codes "public_port"
    ∷ codes "enabled"
    ∷ codes "fallback"
    ∷ codes "fallback_backend"
    ∷ codes "protection_profile"
    ∷ codes "connection_mode"
    ∷ codes "backend_adapter"
    ∷ codes "backend_online_mode"
    ∷ codes "require_proxy_identity"
    ∷ codes "capacity"
    ∷ codes "companion_secret"
    ∷ []

abbrev profile_keys : List Text
profile_keys =
    codes "max_datagram_size"
    ∷ codes "max_packets_per_second_per_ip"
    ∷ codes "max_handshakes_per_minute"
    ∷ codes "max_sessions_per_ip"
    ∷ codes "allow_new_sessions_during_incident"
    ∷ []

-- `keyOrder`
abbrev key_order : List (Text × List Text)
key_order =
    (
      codes "edge",
      codes "config_version"
          ∷ codes "instance_name"
          ∷ codes "public_host"
          ∷ codes "primary_allocation_port"
          ∷ codes "managed_public_udp_ports"
          ∷ codes "primary_backend"
          ∷ codes "routing_mode"
          ∷ [],
    )
    ∷ (
      codes "dashboard",
      codes "port"
          ∷ codes "public_host"
          ∷ codes "owner_username"
          ∷ codes "owner_token"
          ∷ codes "operator_token"
          ∷ codes "viewer_token"
          ∷ codes "metrics_token"
          ∷ codes "totp_secret"
          ∷ codes "session_minutes"
          ∷ [],
    )
    ∷ (
      codes "session_core",
      codes "enabled"
          ∷ codes "version"
          ∷ codes "advertised_version"
          ∷ codes "protocol_capture_enabled"
          ∷ codes "protocol_capture_mode"
          ∷ codes "protocol_observation_max_bytes"
          ∷ codes "protocol_capture_packet_ids"
          ∷ codes "protocol_capture_max_packet_bytes"
          ∷ codes "protocol_capture_decode_failures"
          ∷ codes "listen_host"
          ∷ codes "internal_token"
          ∷ codes "motd"
          ∷ codes "sub_motd"
          ∷ codes "require_transfer_ticket"
          ∷ codes "command_prefix"
          ∷ codes "profiles_folder"
          ∷ [],
    )
    ∷ (
      codes "companion",
      codes "default_secret"
          ∷ codes "presence_ttl_seconds"
          ∷ codes "capture_mode"
          ∷ codes "selected_packet_ids"
          ∷ codes "payload_limit"
          ∷ codes "redact_packet_ids"
          ∷ codes "queue_capacity"
          ∷ codes "batch_size"
          ∷ codes "flush_ms"
          ∷ codes "movement_sample_rate"
          ∷ codes "metrics_interval_ticks"
          ∷ codes "reconnect_seconds"
          ∷ codes "presence_enabled"
          ∷ codes "presence_include_address"
          ∷ codes "transfer_enabled"
          ∷ codes "drop_receive_ids"
          ∷ codes "drop_send_ids"
          ∷ [],
    )
    ∷ (
      codes "transfer",
      codes "enabled"
          ∷ codes "public_host"
          ∷ codes "port_start"
          ∷ codes "port_end"
          ∷ codes "ticket_ttl_seconds"
          ∷ codes "require_source_ip"
          ∷ [],
    )
    ∷ (
      codes "firewall",
      codes "enabled"
          ∷ codes "adaptive"
          ∷ codes "risk_decay_per_minute"
          ∷ codes "risk_warning_threshold"
          ∷ codes "risk_ban_threshold"
          ∷ codes "progressive_ban_seconds"
          ∷ codes "max_datagram_size"
          ∷ codes "max_packets_per_second_per_ip"
          ∷ codes "global_packets_per_second"
          ∷ codes "max_handshakes_per_minute"
          ∷ codes "max_sessions"
          ∷ codes "max_sessions_per_ip"
          ∷ [],
    )
    ∷ (
      codes "incident",
      codes "enabled"
          ∷ codes "trigger_packets_per_second"
          ∷ codes "trigger_drop_ratio"
          ∷ codes "minimum_packets_per_second"
          ∷ codes "recovery_seconds"
          ∷ codes "rate_divisor"
          ∷ codes "handshake_divisor"
          ∷ [],
    )
    ∷ (
      codes "health",
      codes "enabled"
          ∷ codes "interval_seconds"
          ∷ codes "timeout_ms"
          ∷ codes "failure_threshold"
          ∷ codes "recovery_threshold"
          ∷ codes "automatic_actions"
          ∷ codes "require_companion"
          ∷ codes "companion_stale_seconds"
          ∷ codes "degraded_after_seconds"
          ∷ codes "stable_recovery_seconds"
          ∷ codes "minimum_tps"
          ∷ codes "maximum_mspt"
          ∷ [],
    )
    ∷ (
      codes "logging",
      codes "packet_capture"
          ∷ codes "capture_outgoing"
          ∷ codes "packet_hex_preview_bytes"
          ∷ codes "packet_log_max_bytes"
          ∷ codes "event_log_max_bytes"
          ∷ codes "audit_log_max_bytes"
          ∷ codes "metric_sample_seconds"
          ∷ codes "metric_retention_days"
          ∷ [],
    )
    ∷ (
      codes "discord",
      codes "webhook_url" ∷ codes "bot_token" ∷ codes "channel_id" ∷ codes "summary_minutes" ∷ [],
    )
    ∷ []

-- The keys of a section that stand in a fixed order.
unfoldable pub keys_for : Text → List Text
keys_for section =
    if is_backend_section section
    then backend_keys
    else if is_profile_section section
    then profile_keys
    else elim (lookup section key_order) [ none ↦ [] | some keys ↦ keys ]

-- The order of the sections.
unfoldable pub ordered_sections : List Text → List Text
ordered_sections sections =
    standard
    ++ sort_strings (select is_backend_section sections)
    ++ sort_strings (select (λ s. not (is_backend_section s) && is_profile_section s) sections)
    ++ sort_strings (
        select
          (λ s. not (is_backend_section s) && not (is_profile_section s) && not (among standard s))
          sections)

-- The keys of a section in the order of their lines.
unfoldable pub ordered_keys : Text → List (Text × Text) → List Text
unfolding keys_for
ordered_keys section values =
    let keys = keys_for section in
    select (λ k. has_key k values) keys
    ++ sort_strings (select (λ k. not (among keys k)) (keys_of values))

abbrev pub key_line : Text → Text → Text
key_line key value = key ++ (codes " = " ++ value)

abbrev pub with_line : Text → Option Text → List Text → List Text
with_line key none rest = rest
with_line key (some v) rest = key_line key v ∷ rest

unfoldable pub value_lines : List Text → List (Text × Text) → List Text
value_lines [] values = []
value_lines (key ∷ keys) values = with_line key (lookup key values) (value_lines keys values)

unfoldable pub with_section : Text → Option (List (Text × Text)) → List Text → List Text
unfolding ordered_keys value_lines
with_section section none rest = rest
with_section section (some values) rest =
    (codes "[" ++ section ++ codes "]")
    ∷ (value_lines (ordered_keys section values) values ++ ([] ∷ rest))

unfoldable pub section_lines : List Text → Document → List Text
unfolding with_section
section_lines [] doc = []
section_lines (section ∷ sections) doc =
    with_section section (lookup section doc) (section_lines sections doc)

-- The lines of the file.
unfoldable pub document_lines : Document → List Text
unfolding ordered_sections section_lines
document_lines doc =
    codes "# Ninj-OS Edge Fabric unified configuration"
    ∷ codes "# Use env:VARIABLE for secrets stored in Pterodactyl Startup."
    ∷ []
    ∷ section_lines (ordered_sections (keys_of doc)) doc

unfoldable pub unlines : List Text → Text
unlines [] = []
unlines (line ∷ lines) = line ++ (b'\n' ∷ unlines lines)

-- `renderUnifiedConfig`
unfoldable pub render_unified_config : Document → Text
unfolding document_lines unlines
render_unified_config doc = unlines (document_lines doc)
