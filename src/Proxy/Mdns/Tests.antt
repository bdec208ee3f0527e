-- ===== src/Proxy/Mdns/Tests.antt =====
-- The announcement of mdns.rs on particular inputs.
use atemproxy.Prelude.{ℕ, suc, ◌≡◌, refl, true, false, ◌⊎◌, none, some, [], ◌∷◌, ◌++◌, is_empty}
use atemproxy.Prelude.Text.{Text, codes, ends_with, trim_start, trim_end, decimal}
use atemproxy.Prelude.Utf8.{is_whitespace, is_control}
use atemproxy.Proxy.Mdns.{
  Reading, v4, v6, ServiceInfo, Outside, first_v4, local_ipv4, host_name_of, sanitize_char,
  sanitize_chars, sanitize_instance_name, register_service, release_or_default,
}
use atemproxy.Proxy.Mdns.Instance.{IsInstance, sanitize_instance_name-IsInstance}
use atemproxy.Proxy.Mdns.HostName.{IsRegistered, register_service-IsRegistered}

abbrev constellation : Text
constellation = codes "ATEM 2 M/E Constellation HD"

sanitized : sanitize_instance_name constellation ≡ codes "ATEM 2 M-E Constellation HD (Proxy)"
unfolding sanitize_instance_name sanitize_chars sanitize_char trim_start trim_end is_whitespace
    is_control
sanitized = refl

releases : release_or_default (some (2, 30)) ≡ codes "2.30"
unfolding release_or_default decimal
releases = refl

sanitize_instance_name-IsInstance_example :
    (sanitize_instance_name constellation ≡ codes "ATEM-Proxy")
    ⊎ ((s : Text) × IsInstance constellation s
        × (is_empty s ≡ false)
        × (sanitize_instance_name constellation ≡ s ++ codes " (Proxy)"))
sanitize_instance_name-IsInstance_example = sanitize_instance_name-IsInstance constellation

-- A host with a loopback, an IPv6 and an IPv4 address.
abbrev host : Outside
host = record {
  has_daemon = true;
  get_if_addrs = some (
      record { is_loopback = true; ip = v4 1 }
      ∷ record { is_loopback = false; ip = v6 2 }
      ∷ record { is_loopback = false; ip = v4 3 }
      ∷ []);
  hostname = some (codes "studio");
  show_ip = λ ip. codes "192.168.1.3";
  accepts = λ service. true;
  registers = λ service. true;
}

abbrev service : ServiceInfo
service = record {
  service_type = codes "_blackmagic._tcp.local.";
  instance_name = codes "ATEM (Proxy)";
  host_name = codes "studio.local.";
  ip = v4 3;
  port = 9910;
  props =
      (codes "txtvers", codes "1")
      ∷ (codes "name", codes "ATEM")
      ∷ (codes "class", codes "AtemSwitcher")
      ∷ (codes "protocol version", codes "0.0")
      ∷ (codes "release version", codes "2.30")
      ∷ (codes "device version", codes "0")
      ∷ (codes "unique id", codes "atem-proxy-192.168.1.3")
      ∷ (codes "internal version", codes "atem-proxy")
      ∷ [];
}

registered : register_service host (codes "ATEM") (codes "2.30") 9910 ≡ some service
unfolding register_service local_ipv4 first_v4 host_name_of ends_with sanitize_instance_name
    sanitize_chars sanitize_char trim_start trim_end is_whitespace is_control
registered = refl

register_service-IsRegistered_example : IsRegistered host (codes "ATEM") 9910 service
register_service-IsRegistered_example =
    register_service-IsRegistered host (codes "ATEM") (codes "2.30") 9910 service registered

-- The switcher is ready from the fourth round on.
abbrev from_fourth : ℕ → Reading
from_fourth (suc (suc (suc i))) = record {
  is_cancelled = false;
  is_ready = true;
  product = some (codes "ATEM");
  version = some (2, 30);
}
from_fourth i = record { is_cancelled = false; is_ready = false; product = none; version = none }
