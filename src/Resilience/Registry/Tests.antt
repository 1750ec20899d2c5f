-- ===== src/Resilience/Registry/Tests.antt =====
-- internal/resilience/circuitbreaker.go: a sample registry.
use projectbeskar_virtrigaud.Common.{ℕ, String, ◌≡◌, ◌≢◌, none, some, if◌then◌else◌}
use mathlib.Core.Option
use projectbeskar_virtrigaud.Resilience.Breaker
use projectbeskar_virtrigaud.Resilience.Registry.{
  Registry, new_registry, key, find, get, get_or_create, remove, reset_all,
}
use projectbeskar_virtrigaud.Resilience.Registry.Laws.{
  points, get-get_or_create, get-remove, reset_all_lem,
}

abbrev one_breaker : Registry
one_breaker = (get_or_create "api" "vsphere" "east" (new_registry none)).1

get-get_or_create_example :
    let (p, r) = get_or_create "api" "libvirt" "lab" one_breaker in
    (get "api" "libvirt" "lab" r ≡ some p)
    × (get_or_create "api" "libvirt" "lab" r ≡ (p, r))
    × ((k : String)
        → k ≢ key "api" "libvirt" "lab"
        → find k r.breakers ≡ find k one_breaker.breakers)
get-get_or_create_example = get-get_or_create "api" "libvirt" "lab" one_breaker

get-remove_example :
    let r = remove "api" "vsphere" "east" one_breaker in
    (get "api" "vsphere" "east" r ≡ none)
    × ((k : String)
        → k ≢ key "api" "vsphere" "east"
        → find k r.breakers ≡ find k one_breaker.breakers)
    × (r.heap ≡ one_breaker.heap)
get-remove_example = get-remove "api" "vsphere" "east" one_breaker

reset_all_lem_example :
    ((reset_all one_breaker).breakers ≡ one_breaker.breakers)
    × ((q : ℕ)
        → (reset_all one_breaker).heap q ≡ (
            if points one_breaker.breakers q
            then Option.map Breaker.reset (one_breaker.heap q)
            else one_breaker.heap q))
reset_all_lem_example = reset_all_lem one_breaker
