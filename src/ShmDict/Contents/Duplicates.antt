-- ===== src/ShmDict/Contents/Duplicates.antt =====
-- ngx_shm_dict_set on a key whose node has expired and is still linked.
use nginx_modules.ShmDict.Platform.{Platform}
use nginx_modules.ShmDict.Node.{Node}
