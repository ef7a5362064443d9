-- ===== src/Display/Flatten/Success.antt =====
-- Flattening as a whole: `guacenc_display_flatten` of src/guacenc/display-flatten.c.
use guacenc.Display.{Display}
