-- ===== src/Lib.antt =====
-- chdkptp talks to a camera over PTP, works on the raw sensor images and the byte buffers it gets from
-- it, and shows its live view. This library models parts of its C core.
--
-- The parts and their files:
--   Rawimg   src/chdkptp/rawimg.c. Pixel has the pixel functions of each packing (raw_get_pixel_* and
--            raw_set_pixel_*, the switch of each as get_case_* and set_case_*), Format the table and
--            its search, Image the image with get_pixel and set_pixel, Bind rawimg.bind_lbuf, Convert
--            img:convert and Patch img:patch_pixels. Layout describes a packed row as a stream of
--            bits, without the code, and Laws relates the pixel functions to it.
--   Ptp      src/chdkptp/ptp.c. Link has the read and write functions of a connection and the laws of
--            a byte stream, Buffer the packet buffer and the reads through it, Usb the packets of the
--            USB transport, Ip those of the IP transport, Transaction a transaction over the functions
--            of a transport (Layer), Operations and Chdk the operations that are made of transactions.
--   Pack     src/chdkptp/ptp-pack.c and libptp-endian.h, which turn the fields of a dataset into bytes
--            and back: Integers, Strings, Device, Object, Property and Event. The byte order is an
--            argument.
--   Lbuf     src/chdkptp/lbuf.c: index arguments, string, sub, byte, reverse_bytes, fill, new and the
--            numbers of get and set. Its memory is the one that an image of Rawimg is bound to.
--   Liveimg  src/chdkptp/liveimg.c and the frame of src/chdkptp/chdk_headers/core/live_view.h. Frame has
--            the header of a frame, Colour and Palette the conversions to RGB, Pixels the stream of
--            pixels that a loop reads and what it writes, Convert the loops to a packed image, Planar
--            those to planes, Viewport and Bitmap the calls from Lua, Split the split of a YUV image
--            into channels.
--   Common   the shared types: Bytes has a block of memory, where an access outside the block is
--            `none`, and Results what a C function called from Lua does: return, raise an error, or
--            access memory outside a block.
--
-- How the code is read: an unsigned is a number below 2 ^ 32, and each sum, difference or product that
-- the source makes on one is cut by u32; a store through a byte pointer is cut to a byte. In Liveimg an
-- int is a ℤ, a sum or product of ints outside its range is a fault, and a pointer into a frame is its
-- offset. A plain char is unsigned, as on the ARM boards that this repository is for. The loops of
-- Rawimg, Lbuf, Pack and Liveimg run on the number of rounds that their bounds leave. The loops of
-- reads in Ptp run on fuel, and `none` is a loop without an end, or memory accessed outside a block; a
-- read of a stream gets a byte or fails or, a bounded number of times in a row, gets nothing, so that
-- one more than the 512 bytes of the packet buffer and that number is enough, and the size of the
-- payload on top of it for a payload. The sizes that ptp.c converts to an int are tested for the 32-bit
-- numbers that are negative there. malloc, which may fail, is a parameter, and so are the result of a
-- shift by a negative count, atoi and mktime. A destination pointer becomes a returned list of bytes.
-- The device's byte order in Ptp is the little endian one that chdkptp.c sets.
--
-- Not modelled: the Lua state (arguments come in as the numbers that the code converts them to, a
-- result is returned instead of pushed), what a failed call leaves in a destination image, the fread
-- and fwrite of a buffer, the drawing on a CD canvas, the thumbnail of a raw image, the event pipe, over
-- IP the reception of data and the set-up of a connection, the tables of names and properties, and the
-- Lua bindings of chdkptp.c, which call libusb, sockets and Lua.
pub mod Common
pub mod Lbuf
pub mod Liveimg
pub mod Pack
pub mod Ptp
pub mod Rawimg
