-- ===== src/Params.antt =====
-- The protocol constants of LA_Client_aodv/parameters.h and const.h, with their C arithmetic
-- carried out. Times are milliseconds.
use unified_routing_framewor.Prelude.{ℕ, ◌+◌, ◌-◌, ◌*◌, ◌/◌}

abbrev pub node_traversal_time : ℕ
node_traversal_time = 500

abbrev pub allowed_hello_loss : ℕ
allowed_hello_loss = 2

abbrev pub hello_interval : ℕ
hello_interval = 2000

abbrev pub periodic_interval : ℕ
periodic_interval = 1000

abbrev pub active_route_timeout : ℕ
active_route_timeout = 3000

abbrev pub rrep_ack_timeout : ℕ
rrep_ack_timeout = node_traversal_time + 20

abbrev pub local_add_ttl : ℕ
local_add_ttl = 2

abbrev pub ttl_start : ℕ
ttl_start = 1

abbrev pub ttl_increment : ℕ
ttl_increment = 2

abbrev pub ttl_threshold : ℕ
ttl_threshold = 7

abbrev pub net_diameter : ℕ
net_diameter = 35

abbrev pub rreq_retries : ℕ
rreq_retries = 2

-- K * MAX(ACTIVE_ROUTE_TIMEOUT, HELLO_INTERVAL)
abbrev pub delete_period : ℕ
delete_period = 5 * active_route_timeout

-- A hop count, not a limit of the type: routes of 60 hops are invalid.
abbrev pub infinity : ℕ
infinity = 60

abbrev pub my_route_timeout : ℕ
my_route_timeout = 10 * active_route_timeout

abbrev pub net_traversal_time : ℕ
net_traversal_time = 3 * node_traversal_time * net_diameter / 2

abbrev pub path_traversal_time : ℕ
path_traversal_time = 2 * (3 * node_traversal_time * net_diameter) / 2

abbrev pub blacklist_timeout : ℕ
blacklist_timeout =
    3
    * node_traversal_time
    * net_diameter
    / 2
    * ((ttl_threshold - ttl_start) / ttl_increment + 1 + rreq_retries)

-- Results of `recvRREQ` and `recvRREP`.
abbrev pub gen_rrep : ℕ
gen_rrep = 1

abbrev pub fwd_rreq : ℕ
fwd_rreq = 2

abbrev pub send_rrep : ℕ
send_rrep = 3

-- Timer types.
abbrev pub reboot_timer : ℕ
reboot_timer = 4

abbrev pub rreq_timer : ℕ
rreq_timer = 5

abbrev pub hello_timer : ℕ
hello_timer = 6

abbrev pub lr_timer : ℕ
lr_timer = 7

abbrev pub periodic_timer : ℕ
periodic_timer = 8

abbrev pub rrep_ack_timer : ℕ
rrep_ack_timer = 9

abbrev pub active_route_timer : ℕ
active_route_timer = 10

-- inet_addr("255.255.255.255")
abbrev pub broadcast_addr : ℕ
broadcast_addr = 0xffff_ffff

-- Routing flags.
abbrev pub broken_route : ℕ
broken_route = 1

abbrev pub local_repair_route : ℕ
local_repair_route = 2

abbrev pub active_route : ℕ
active_route = 3

abbrev pub invalid_route : ℕ
invalid_route = 4
