-- ===== src/Lib.antt =====
-- A set of nginx modules for plugins: what loads the plugins and converts requests and
-- responses for them, the handlers that run a plugin (to answer by itself, with subrequests, or
-- in front of a backend, with the frame of the protocol to it), and a key-value dictionary in
-- shared memory.
--
-- Base holds what the files share: the names of the libraries, Boolean tests on the native
-- numbers and lists measured by them.
--
-- ShmDict is module_shm_dict/ngx_shm_dict.c. ShmDict/Platform names what the code takes from
-- nginx as a record of operations with laws: the slab pool (ngx_slab_alloc_locked,
-- ngx_slab_free_locked), the rebalancing insertion and deletion of the red-black tree, of which
-- only the order of the nodes is known, the links of the queue, ngx_memn2cmp and
-- ngx_crc32_short; and, with no law, what an addition to an integer of fewer than eight bytes
-- does to the memory behind its node. ShmDict/Node is the node (ngx_shm_dict_node_t) and the
-- arithmetic of its expiry time, ShmDict/Rbtree the walks of the tree
-- (ngx_shm_dict_rbtree_insert_value, the loop of ngx_shm_dict_lookup, ngx_shm_dict_count),
-- ShmDict/Zone the state (ngx_shm_dict_shctx_t with the pool and its mutex: nodes by address,
-- the tree, the queue) and the lookup, ShmDict/Expire the functions ngx_shm_dict_expire,
-- ngx_shm_dict_flush_expired and ngx_shm_dict_flush_all, and ShmDict/Access the functions
-- ngx_shm_dict_insert, _get, _set, _set_exptime, _delete, _inc_int and _foreach. An operation
-- takes the zone and the time that nginx's cache gives it, and returns the zone with its
-- result; get and the like are a first part, enter, which takes the lock, expires and looks up,
-- and a second part by the lookup's result. ShmDict/Valid is the invariant of a zone,
-- ShmDict/Contents what the operations do to the entries (ShmDict/Contents/Room when a set
-- fails, ShmDict/Contents/Integers the eight bytes of an entry of the integer type),
-- ShmDict/Sample a platform that meets the laws. ShmDict/Abstract is the contract of the
-- dictionary: a map from keys to entries, which a zone gives by the walk of the lookup, and for
-- each operation what it may do to the map; ShmDict/Abstract/Views and ShmDict/Abstract/Changes
-- are about that map and the nodes, ShmDict/Abstract/Reads, Inserts, Writes, Sums and Flushes
-- about the operations, ShmDict/Abstract/Runs and Permanent about sequences of calls,
-- ShmDict/Abstract/Fresh about those of a zone that init_zone has made, and
-- ShmDict/Abstract/Races about a call between the two parts of inc_int. ShmDict/Handlers is
-- module_shm_dict/ngx_shm_dict_handler.c on top of it.
--
-- ShmDict/Start is the start of a zone (ngx_shm_dict_init_zone), ShmDict/Traces sequences of
-- calls with their results, ShmDict/Strtok the function ngx_strtok_r, ShmDict/Directive
-- module_shm_dict/ngx_shm_dict_module.c with ngx_shm_dict_init, and ShmDict/Interface the class
-- of module_shm_dict/ngx_shm_dict_interface.cc, which a plugin holds.
--
-- Subrequest is module_subrequest: Subrequest has the context (ngx_http_subrequest_ctx_t), what
-- nginx and the plugins answer during one call, and the loops of start_subrequest and
-- plugin_check_subrequest; Subrequest/Handler has the stages of ngx_http_subrequest_handler
-- with the plugin_* functions of ngx_subrequest_interface.cc, and post_body; Subrequest/Start
-- is init_plugin, with what Plugins and Intake answer it. A call that follows a null pointer or
-- leaves an array ends there with a code of its own, overrun, that no call returns. The context
-- counts what the code does outside it: how often it raises the count of the main request, and
-- the requests it makes and destroys for a plugin. Subrequest/Collecting is about the two lists
-- that are walked side by side, Subrequest/Runs about the handler as a whole:
-- Subrequest/Runs/Diagram about the references and requests that it takes,
-- Subrequest/Runs/Calls about sequences of calls, and Subrequest/Runs/Answers about the calls
-- that send the plugin's response.
--
-- Request is include/plugin.h. Upstream is module_upstream: Upstream has the state that the
-- callbacks share and the functions of ngx_upstream_interface.cc, Upstream/Handler the handler
-- of ngx_upstream_module.c and Upstream/Callbacks its callbacks. A pointer to a request is
-- null, dangling or live, and the calls of a plugin are events, so that a call with no request
-- can be seen. Upstream/Filter is about the filter on a body that comes in pieces,
-- Upstream/Session about the callbacks in the orders in which nginx makes them, with
-- Upstream/Session/Steps on each of them, Upstream/Sharing about the plugin of a location, and
-- Upstream/Reply about a frame of Protocol on its way through the callbacks. What
-- plugin_getbyname, ngxr_to_crequest and crequest_to_ngxr answer here is a field of Arrival or
-- an event; Upstream/Passing puts the plugin manager of Plugins and the conversion of Intake
-- there.
--
-- Plugins is module_plugin/plugin_manager.cc and plugin_manager.h with the calls of
-- module_plugin/utils.cc and ngx_plugin_module.c: the map of the plugins in the order of its
-- keys, and events for what is opened, created, deleted and closed. Plugins/Lines is the
-- directive. Response is crequest_to_ngxr of utils.cc, as steps that go on or return, with the
-- answers of the allocator call by call. Intake is get_post_body and Intake/Conversion
-- ngxr_to_crequest. Handle is module_handle, which looks up a plugin of Plugins, converts by
-- Intake and answers by Response.
--
-- Configuration is about the settings of a location: the functions of ngx_upstream_module.c
-- that create, merge and set them, in Configuration/Levels through nested levels, and in
-- Configuration/Directives the directives of the three modules that set a location's handler.
-- The macros and constants of nginx are a record with laws.
--
-- Uri is module_plugin/uri_codec.h, and Uri/Params is split_string of module_plugin/utils.cc
-- with the map as a function on keys. Protocol is module_upstream/ngx_protocol.c.
--
-- Fuel and bounds: the loop of ngx_shm_dict_expire counts its three rounds down, that of
-- ngx_shm_dict_insert its NGX_SHM_DICT_MAX_EXPIRE_COUNT; split_string has the length of the
-- text and one more; the loop of get_post_body that reads a file has a round for each call, and
-- the end of its fuel stands for a loop that goes on; ngx_shm_dict_count runs on any fuel.
-- Times are unsigned numbers of 64 bits, lifetimes of 32, with the wrap-around written out; a
-- machine is little-endian with an int of 32 bits and a long of 64.
--
-- Not modelled: the tables of directives that nginx reads, logs and the times in them, and the
-- memory that a plugin itself uses. nginx, the loader and a plugin's functions are parameters.
pub mod Base
pub mod ShmDict
pub mod Uri
pub mod Protocol
pub mod Subrequest
pub mod Request
pub mod Upstream
pub mod Plugins
pub mod Response
pub mod Intake
pub mod Handle
pub mod Configuration
mod Tests
