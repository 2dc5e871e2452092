-- ===== src/Tests/Addresses.antt =====
-- Tests on addresses, at the subnets of two departments.
use mininet_zone_segmentatio.Base.{◌≡◌, refl, true, false, nat_eq}
use mininet_zone_segmentatio.Address.{Subnet, num_addresses, in_subnet, broadcast_address, overlaps}

abbrev dept_a : Subnet
dept_a = record { network_address = 167837952; prefixlen = 24 }

abbrev dept_b : Subnet
dept_b = record { network_address = 167838208; prefixlen = 24 }

overlaps_test : overlaps dept_a dept_b ≡ false
unfolding overlaps in_subnet num_addresses broadcast_address nat_eq
overlaps_test = refl

in_subnet_test : in_subnet 167838053 dept_a ≡ true
unfolding in_subnet num_addresses nat_eq
in_subnet_test = refl
