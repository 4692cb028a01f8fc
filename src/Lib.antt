-- ===== src/Lib.antt =====
-- A web server, a load balancer and a client over sockets (C++), modelled from src/ and include/.
--
-- A server (src/WebServidor.cpp) answers GET and HEAD with the files of public_html. It reads a
-- request, has src/InterpreteHTTP.cpp decide on the answer, which opens the file through
-- src/FileSystem.cpp, and sends the header and the body in pieces. It announces itself by datagrams.
-- The balancer (src/Balanceador.cpp) keeps a registry of the servers that announced themselves,
-- chooses one of them for each client in one of four ways, and counts its load. src/Utilidades.cpp
-- has the text and address helpers that all of them call.
--
-- Which file models which part:
--   Prelude        bytes for std::string, find, to_string and atoi, int and size_t
--   Utilidades     Utilidades::split and the other helpers; Split and Trozos are on split, Header and
--                  Red on two others, Rutas has obtenerNuevasRutas
--   FileSystem     class FileSystem; Llamadas has the calls of the operating system as a parameter,
--                  Ruta is on setRuta, Lectura on leerArchivo, Abrir on what setRuta leaves,
--                  Escritura on calls of escribirArchivo
--   InterpreteHttp class InterpreteHTTP; Estado is on the status and Acierto on when it is 200, Solicitud on
--                  the cut of a request, Cuerpo on what is left for the body, Cabecera on the lines of
--                  the header
--   Socket         class Socket over the calls of the operating system, which are the record Red;
--                  Fuga is on what an accepted connection leaves open
--   WebServidor    the child process of one request; Respuesta is on the loop over the body,
--                  Servicio on a whole request, Procesos has the constructor, the announcements,
--                  the wait for a balancer and the end
--   Balanceador    class Balanceador: the log, the commands, the announcements and the registry.
--                  Seleccion has the switch of hilo_Cliente and the loads, Bitacora manejarBitacora,
--                  Sesiones the sessions as steps, Reenvio the bytes that a session passes on;
--                  SinServidores the answer while there is no server; Busqueda, Registro, Anuncio,
--                  Cargas, Eleccion and Pesos are on these, Desfase on a server that leaves during a
--                  session, Reporte on the file of the log, Conjunto on the registry as a set of texts;
--                  Puertos has the sockets, the ports and the announcements, Difusion is on what they
--                  send, Inicio has the constructor, main and the first lines of the threads
--   WebCliente     the flags, the address and the request of the client; Peticion is on its request
--                  at the server, Descarga on a download's name and writes, Bajada has the rest
--                  of main, Guardar is on the file that it leaves
--   NachOs         what the course wrote in nachOS/code. OpenFilesTable: userprog/openfiletable.cc;
--                  AddrSpace and Carga: userprog/addrspace.cc; Copia, Nucleo, Lectura, Sockets and
--                  Despacho: userprog/exception.cc; Synch, Condicion and
--                  Barrera: threads/synch.cc. Base has the machine,
--                  its bit maps and the host as records of calls and of what is relied on.
--                  Cuentas, Referencias, Espacios and Vivos are on the pages, Contador, Quietud and Avance on
--                  the program counter, IdaVuelta on the copies, Abiertos on the open files, Rechazo
--                  on refused sockets, Exclusion and Cola on Mutex, Reunion on Barrier; Modelo is a machine for the tests
--   Cadena         a request from a client through a session of the balancer to a server, and back;
--                  Pedido and Descarga go on to the file of a download
--   Prueba         the disk and the objects that the tests run on
--
-- A class is a record, a method a function that returns the new record; `none` is undefined
-- behaviour or a loop that used up its fuel. Loops whose number of rounds is not that of a list take
-- fuel: the segments of a path (a round per byte), the body (a round per byte left), the weighted
-- turn (a round per server before the free one). Where a theorem says that a result is given, it
-- names the fuel. An int that the sources assign from a 64-bit value is cut to 32 bits with its sign
-- (`int32`); places in the log and in a download that an int cannot hold are `none`, and the count of a
-- file's missing bytes wraps at 32 bits; counts of load and of servers are exact integers.
--
-- The operating system's files are the record `Sistema`; what is relied on of regular files is the
-- record `Regulares`. rand, inet_ntoa, the dates and bytes that nothing has set are arguments.
--
-- A step of the kernel of nachOS ends in one of five ways (`Resultado`): it goes on, the machine
-- halts, the thread finishes, an ASSERT fails, or the behaviour is undefined. Threads on a `Mutex` are
-- interleaved moves, one for each part of the code that interrupts may part from the next.
--
-- Not modelled: signals, and threads of the balancer but as the order of steps; fork and the shared
-- memory but for their results; the console and what the programs print; the creation of the balancer's
-- threads and their waits; and the rest of nachOS/, which is a copy of
-- another project.
pub mod Prelude
pub mod Utilidades
pub mod FileSystem
pub mod InterpreteHttp
pub mod Socket
pub mod WebServidor
pub mod WebCliente
pub mod Balanceador
pub mod NachOs
pub mod Prueba
pub mod Cadena
