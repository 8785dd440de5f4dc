-- ===== src/Lib.antt =====
-- The Live remote script ohmic-bridge, which answers OSC messages about a song in Ableton Live.
--
-- A client sends OSC messages to the server (abletonosc/osc_server.py), whose callbacks read and
-- change the song through Live's API and answer with texts in JSON. A reply is one UDP datagram of at
-- most MAX_REPLY_BYTES bytes (abletonosc/constants.py), so a long answer is cut: the arrangement into
-- chunks (abletonosc/arrangement_view.py), the session grid into pages (abletonosc/song.py), the notes
-- of a clip into pages (abletonosc/clip.py).
--
-- - Prelude and its children: the names that all files share, with Python's lists, texts, integers
--   and exceptions. A text is the list of its code points; `Outcome` is a call that returns or raises.
-- - Decimal, Json, Color, Constants: `str` of a number, `json.dumps`, Live's colours, the constants.
-- - Arrangement: abletonosc/arrangement_view.py. Rows has the rows of clips and the dictionary of
--   clips (`ClipRow`, `Clips`), Chunks the cut into chunks (`_chunk_fits`, `_split_track_clip_pages`,
--   `_snapshot_chunk_clip_maps`), Body the value of `_snapshot_body` and `_snapshot_id`, Build
--   `build_arrangement_snapshot_chunks`, Cache the class `ArrangementDeltaCache` with
--   `snapshot_manifest`, `snapshot_chunk` and `delta`. Below them stand the proofs: Chunks/Cover,
--   Chunks/Fit, Chunks/Climb, Chunks/Bound on the cut, Build/Terminate and Build/Sound on the loop
--   around it, Cache/Delta, Cache/Sync, Cache/Fetch and Cache/Clients on what clients hold.
-- - Osc: abletonosc/osc_server.py. Pattern is `re.match` of an address with stars, Server the class
--   `OSCServer` with `send`, `process_message`, `process_bundle`, `parse_bundle` and `process`.
-- - ClipGrid: `_clip_grid_pages`, `_clip_grid_page_json` and the handler `clip_grid` of
--   abletonosc/song.py.
-- - Arrangement/Reading: `_snapshot_body` itself, from what the attributes of Live's objects give or
--   raise; Reading/Formed shows that what it returns satisfies `IsBody`.
-- - ClipNotes: `_paged_notes_reply` of abletonosc/clip.py.
-- - Listeners: `_start_listen`, `_stop_listen`, `_clear_listeners` and the guarded variants of
--   abletonosc/handler.py, and `_start_mixer_listen` of abletonosc/track.py.
-- - Browser: of abletonosc/browser.py the byte budget of `get_names` and `search_items`,
--   `_extend_unique` and `_find_inserted_device_index`.
-- - Browser/Load: the handler `load_item` of abletonosc/browser.py, branch by branch.
-- - Capabilities: abletonosc/capabilities.py.
-- - Browser/Metadata: a page of `_metadata_for_category_items` of abletonosc/browser.py.
-- - View: abletonosc/view.py.
-- - Browser/Tree: `_collect_loadable` of abletonosc/browser.py.
-- - Browser/Search, Browser/Category, Browser/Items: the search of abletonosc/browser.py for an item of
--   one root, the paths that belong to a category, and the list and the search over all the roots of a
--   category. Search/Listed, Search/First and Items/Reach set the two against each other.
-- - Arrangement/Notes: `_note_field` and `_clip_notes_signature` of abletonosc/arrangement_view.py; Prelude/Order
--   is Python's order of tuples and its sorting.
-- - Browser/Paths: `_safe_browser_relative_path` and `_safe_output_browser_path` of abletonosc/browser.py.
-- - BrowserMetadata: abletonosc/browser_metadata.py, with its cache of digests and its budget of bytes.
-- - ClipEdit: the handlers of abletonosc/clip.py that add and remove notes and, in Loop,
--   `arrangement_clip_set_loop`, on the attributes of a clip as an interface with Live's promises.
-- - ClipFilter: `note_name_to_midi`, `_build_clip_name_cache` and the handlers of /live/clips/filter
--   and /live/clips/unfilter of abletonosc/clip.py, with the regular expression for names written out.
-- - Handlers: the callbacks of abletonosc/handler.py that report an exception (`_get_property`,
--   `_set_property_guarded`, `guarded_lom`, `guarded_lom_json`); Guarded puts them into the server.
-- - Tracks: the callbacks of abletonosc/track.py on one track or on all, and in Move the handler
--   `track_move_device`. Live's `move_device` and `find_device_position` are parameters.
-- - SessionInfo: the handler `session_info` of abletonosc/song.py, with Columns on how its lists stand to
--   the tracks.
-- - Manager: `clear_api` and `reload_imports` of manager.py, on the listeners of the handlers and the callbacks
--   of the server.
-- - Listeners/Devices: how abletonosc/device.py starts the listeners of the properties of devices.
-- - Listeners/Left: which listeners Live still has when a handler has cleared its own.
-- - Arrangement/Cache/Serve: which chunk is served for an identity and an index.
-- - Arrangement/Reading/Columns: the lists of `_snapshot_body`, appended row by row, as columns.
--
-- What Live's objects give is an input: for each attribute what reading it returns or raises, for each
-- value what Python's conversions make of it. `IsBody` says that the clips of a body have one entry for
-- each track index, in their order; `Arrangement.Reading` reads such bodies only. A float is the text
-- that `json.dumps` writes for it, so that floats are equal here if these texts are: unlike in Python,
-- 0.0 differs from -0.0, and NaN does not differ from itself. A root of the browser raises, if it does,
-- in `getattr` and not in `hasattr`. SHA-1, the addition of floats, and a float's form with six decimals are
-- parameters, and so are the package pythonosc (the encoding and decoding of datagrams), the socket,
-- `re.match` of an address with special characters, and the callbacks of the server. What a logger is
-- told is recorded, and not sent on to the client.
--
-- The loop over `chunk_count_hint` runs on fuel: one more than the tracks and the clips together. That is
-- enough, because the hint is the count of chunks of the round before, the count does not fall from
-- one round to the next, and no cut has more chunks than there are tracks and clips.
--
-- Not modelled: the parameters of devices, the handlers of scenes and clip slots, the automation
-- envelopes of clips, the routing and the sends of tracks, the tables of addresses of the handlers,
-- logging, the clients and the console, and the sockets themselves. The package pythonosc is a copy
-- of another project's library.
pub mod Arrangement
pub mod Browser
pub mod BrowserMetadata
pub mod Capabilities
pub mod ClipEdit
pub mod ClipFilter
pub mod ClipGrid
pub mod ClipNotes
pub mod Color
pub mod Constants
pub mod Decimal
pub mod Handlers
pub mod Json
pub mod Listeners
pub mod Manager
pub mod Osc
pub mod Prelude
pub mod SessionInfo
pub mod Tracks
pub mod View
