-- ===== src/Os.antt =====
-- src/protocols/tcp/os_fingerprint.hpp: the operating system that a packet's time to live suggests.
use zero_trust_public.Base.{ℕ, ◌-◌, ◌≤◌, ◌≡◌, Bytes, codes, [], if◌then◌else◌, leb, arith}

-- An `int` that is at most 0 is 0 here.
unfoldable guess_os_by_ttl : ℕ → Bytes
guess_os_by_ttl ttl =
    if leb ttl 0
    then []
    else if leb ttl 64
    then codes "Linux/Unix/macOS"
    else if leb ttl 128
    then codes "Windows"
    else if leb ttl 255
    then codes "Network device (Cisco/Solaris)"
    else []

-- Up to 32 routers on the way, each of which takes one from the time to live, do not change the
-- guess of a packet that was sent with 64, 128 or 255.
guess_os_by_ttl_stable :
    (hops : ℕ)
    → hops ≤ 32
    → (guess_os_by_ttl (64 - hops) ≡ guess_os_by_ttl 64)
      × (guess_os_by_ttl (128 - hops) ≡ guess_os_by_ttl 128)
      × (guess_os_by_ttl (255 - hops) ≡ guess_os_by_ttl 255)
unfolding guess_os_by_ttl
guess_os_by_ttl_stable hops h = ground arith
