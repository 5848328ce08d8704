-- ===== src/Examples/Configs.antt =====
-- A configuration, and a system whose patterns are names or stars.
use paramiko.Base.{
  ◌≡◌, refl, true, false, ◌||◌, not, ◌&&◌, List, [], ◌∷◌, none, some, key_error, ok, err, codes,
  eq_bytes, starts_with, contains, pos, ◌==◌,
}
use paramiko.SshConfig.State.{nothing, text, Context, System, get, put}
use paramiko.SshConfig.Parsing.{
  parse, parse_lines, parse_line, parse_setting, setting, front_word, unquoted, ends_with_quote,
  store, get_hosts, get_matches, criteria, allowed, any_bad, index,
}
use paramiko.HostKeys.Entry.{split_by, lstrip, rstrip}
use paramiko.SshConfig.Matching.{match_patterns, pattern_matches}
use paramiko.SshConfig.Lookup.{apply_option, apply_options, applies, lookup_in, get_hostnames}
use paramiko.SshConfig.Patterns.{is_meant, is_ruled_out, pattern_matches-is_meant}
use paramiko.SshConfig.FirstValue.{or_else, first_value, IsFirst, lookup_in-IsFirst}

abbrev small : System
small = record {
  fnmatch = λ target pattern. eq_bytes pattern (codes "*") || eq_bytes pattern target;
  shlex_split = λ s. ok (split_by (λ c. c == 32) [] s);
  int = λ s. ok (pos 1);
  local_username = codes "me";
  homedir = codes "/home/me";
  local_hostname = codes "here";
  local_fqdn = λ options. codes "here.example";
  connection_hash = λ target port user. [];
  run = λ command. ok true;
  resolves = λ name. true;
  resolves_in = λ v6 name. true;
}

pattern_matches-is_meant_example :
    pattern_matches small (codes "*" ∷ codes "!b" ∷ []) (codes "b") ≡ (
      is_meant small (codes "b") (codes "*" ∷ codes "!b" ∷ [])
      && not (is_ruled_out small (codes "b") (codes "*" ∷ codes "!b" ∷ [])))
pattern_matches-is_meant_example =
    pattern_matches-is_meant small (codes "b") (codes "*" ∷ codes "!b" ∷ [])

-- "Host a", with a user; then "Host *" with another, and a port.
abbrev blocks : List Context
blocks =
    record {
      host = some (codes "a" ∷ []);
      matches = none;
      config = (codes "user", text (codes "u")) ∷ [];
    }
    ∷ record {
      host = some (codes "*" ∷ []);
      matches = none;
      config = (codes "user", text (codes "v")) ∷ (codes "port", text (codes "23")) ∷ [];
    }
    ∷ []

lookup_in-IsFirst_example :
    IsFirst small
      (codes "user")
      (or_else none (first_value small (codes "user") (codes "a") blocks))
      (lookup_in small blocks (codes "a") false false [])
unfolding eq_bytes get
lookup_in-IsFirst_example =
    lookup_in-IsFirst small (codes "user") blocks (codes "a") false false [] refl (refl, (refl, tt))

found_runs :
    lookup_in small blocks (codes "a") false false []
    ≡ ok ((codes "user", text (codes "u")) ∷ (codes "port", text (codes "23")) ∷ [])
unfolding lookup_in applies pattern_matches match_patterns apply_options apply_option get put
    eq_bytes starts_with
found_runs = refl

-- A proxy command "none" takes the place of one that was there, though the first value is to count.
proxy_command_runs :
    store (codes "proxycommand") (codes "None") ((codes "proxycommand", text (codes "nc")) ∷ [])
    ≡ (codes "proxycommand", nothing) ∷ []
unfolding store unquoted put get eq_bytes starts_with ends_with_quote contains
proxy_command_runs = refl

-- A file with a block of "Match", of whose host names there is no list.
parse_runs :
    parse small
      (codes "User  u " ∷ codes "# a comment" ∷ codes "Match host a,b" ∷ codes "Port=\"23\"" ∷ [])
    ≡ ok (
        record {
          host = some (codes "*" ∷ []);
          matches = none;
          config = (codes "user", text (codes "u")) ∷ [];
        }
        ∷ record {
          host = none;
          matches =
              some (record { keyword = codes "host"; param = codes "a,b"; negate = false } ∷ []);
          config = (codes "port", text (codes "23")) ∷ [];
        }
        ∷ [])
unfolding parse parse_lines parse_line parse_setting setting front_word unquoted ends_with_quote
    store get_hosts get_matches criteria allowed any_bad index split_by lstrip rstrip get put
    eq_bytes starts_with contains
parse_runs = refl

no_host_runs :
    get_hostnames (record { host = none; matches = some []; config = [] } ∷ []) ≡ err key_error
unfolding get_hostnames
no_host_runs = refl
